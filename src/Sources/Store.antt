-- ===== src/Sources/Store.antt =====
-- The stores of sources, labels, agents, subsets, images and keys. The constraints are those of
-- pkg/migrations/sql.
mod Tests
mod SourceRows
mod AgentRows
mod ImageRows
unfoldable pub use Tests.*
unfoldable pub use SourceRows.*
unfoldable pub use AgentRows.*
unfoldable pub use ImageRows.*
