-- ===== src/Lib.antt =====
-- A verification library for the migration planner, a service that collects the inventories of
-- virtual machines, assesses their migration, and shares the assessments with partners.
--
-- Parts, and the code they model (paths from the repository's root):
--   Tar          internal/image/seekable_tar.go: the virtual TAR archive that is downloaded as an
--                OVA. `new_seekable_tar_reader` lays out sections, `read` and `seek` serve them.
--     Sections   sections that lie end to end, and readers that hold to io.Reader's contract
--     Reading    the loop of `Read`
--     Building   the constructor against the archive of the format
--     Seeking    `Seek`, ranges, the end, and a reader that ends too early
--   Access       who may see an assessment.
--     Model      internal/store/model/authz.go, partner.go, group.go, member.go
--     Store      internal/store/transaction.go and the calls of the database; Effects and Atomic
--                have a rule for each way to build a method
--     Authz      internal/store/authz.go, authz_builder.go: the table of relations
--     Requests   internal/store/partner.go, the filters of options.go, reads of accounts.go
--     Identity   GetIdentity and IsKind of internal/service/accounts.go; Known has the users that
--                are enrolled
--     Partner    internal/service/partner.go: the life of a partner request. Rows is about the
--                table, Lifecycle and Endings about each method, Calls about their sequences,
--                Failures about errors, Revocation about the shares that end with a partnership
--     Gate       internal/service/authz_partner.go
--     Handlers   internal/handlers/v1alpha1/partner.go, and what a response says of the tables
--     Accounts   the rest of internal/service/accounts.go and internal/store/accounts.go: groups
--                and members; Members is about the relation of a member to the group
--     Admins     Initialize, UpdateGroup and ListGroups of the same files; Initialized is about the
--                groups and members that a start leaves
--     AccountsGate   internal/service/authz_accounts.go; Refusals is about who is turned away
--     AssessmentStore   internal/store/assessment.go
--     Assessments   internal/service/assessment.go. Shares, Creation, Snapshots and Rows are about
--                what its methods write to the relations and to the table
--     Sharing    internal/service/authz_assessment.go. Permitted and Reading are about who may do
--                what, Shares, Removal and Creation about what holds after a call, Failures about
--                errors, Listing and Shown about what a list shows
--     Samples    small tables that the tests share
--   Sources      the sources of inventories, and the agents that collect these.
--     Store      internal/store/source.go, agent.go, source_subset_inventory.go, label.go, image.go
--                and key.go
--     Agents     internal/service/agent.go: what agents write
--     Uploads    internal/service/source.go: Forms has the forms of sources of
--                internal/service/mappers/inbound.go, Changes what writes sources, Downloads the
--                tokens of agents, with pkg/version/version.go
--     Handlers, AgentHandlers   internal/handlers/v1alpha1/source.go and agent.go
--     Isolation  what a request leaves of a source that is not the user's or the agent's
--     Keeping, Calls   what a call keeps of a source, and their sequences
--     Subsets, Replacing, Tokens, Failures   about the subsets that an agent writes, those of an
--                upload, the agent's token, and errors
--   Inventory    internal/service/helpers/inventory_aggregate.go and the types that it uses of
--                internal/model/inventory.go: several inventories become one. Merging, Totals,
--                Issues and Flags are about what becomes of maps, sums, issues and flags
--   Complexity   pkg/estimations/complexity/complexity.go: scores of operating systems and disks
--     Tables     the tables; Scores, Counts, Names and Tiers are about the functions
--   Sizing       the batches of internal/service/sizer.go, and which of them must not share a node.
--     Groups, Shares   the arithmetic of the avoid lists and of the batches
--     Avoidance, Batches   what the avoid lists and the batches respect
--   Prelude      shared helpers: tests, lists, 64-bit words, maps
-- The Scenarios modules run the code on small inputs.
--
-- How the parts interact: a partner handler calls Gate, Gate asks Identity who the user is and
-- calls Partner, Partner reads and writes Requests and Authz inside the transactions of Store.
-- AccountsGate and Sharing stand in the same way before Accounts with Admins, and before
-- Assessments with AssessmentStore. Sharing reads the relations that Partner and Accounts write.
-- Handlers asks who owns a source before it calls Uploads, AgentHandlers whose token it is before it
-- calls Agents. Assessments reads the sources and subsets that Agents and Uploads write; all are
-- tables of one Db.
--
-- Choices:
--   * int64 and int are bit patterns below 2 ^ 64 with Go's wrap-around, except for scores and for
--     len(p), which are small numbers.
--   * A section's reader is a function of the offset that it is sought to, of the length of the
--     buffer and of a state `W` of the world; archive/tar's header writer is a parameter. `Read` is
--     recursion on fuel; a fuel above the length of the buffer is enough, since a reader that holds
--     to its contract gives at least one byte each time.
--   * A table is a list of rows, an SQL condition a test on a row, a constraint a test before the
--     write. Rows are appended, so that a table is in the order of creation, and a list ordered by
--     created_at DESC is the table reversed. Each call of the database may fail: a list of faults,
--     which is free in every theorem, says which. A transaction that fails puts the tables back; a method that opens one while the
--     context holds another joins it (`in_context`). Methods of one request run without another
--     between their steps; which request follows which is free.
--   * GORM's Updates skips empty fields (`or_old`), and Preload is part of the query that it
--     belongs to. Primary keys are not empty. What a transaction writes that is neither committed
--     nor rolled back is not kept. The JSON text of a source's inventory is a string. How tokens
--     and keys are made and read is given by the arguments `sign`, `new_key` and `expires`.
--   * uuid.New, time.Now, uuid.Parse, ILIKE and the identity service are arguments; the texts of
--     errors are left out; so are the groups that are preloaded for the answer. The stored
--     inventory of an assessment is represented by its number of virtual machines alone.
--   * The order in which Go visits a map is an argument where an answer can depend on it, one for
--     each call of ClassifyOS in OSNameBreakdown and one for all in OSBreakdown and OSRatings; else
--     a map is an association list; strings.ToLower and sort.Slice are parameters. float64 is a
--     type with a zero in Complexity, and one with the operations of the record Floats in
--     Inventory and of Rounding in Sizing.
--
-- Not modelled: the parsing of inventories (SQL in DuckDB), the calculators of the estimation, the
-- rest of the sizing of clusters, the service of jobs, the service method that calls the
-- aggregation of inventories, authentication, events, generated code, and the other handlers and
-- mappers, which convert and print.
mod Prelude
pub mod Access
pub mod Complexity
pub mod Inventory
pub mod Sizing
pub mod Sources
pub mod Tar
