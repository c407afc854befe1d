-- ===== src/Access.antt =====
-- Who may see an assessment: the relations between users, organizations and assessments, the
-- partner requests that make a user a customer, and the services that change both.
pub mod Model
pub mod Store
pub mod Authz
pub mod Requests
pub mod Identity
pub mod Partner
pub mod Gate
pub mod Handlers
pub mod Accounts
pub mod Admins
pub mod AccountsGate
pub mod AssessmentStore
pub mod Assessments
pub mod Sharing
pub mod Samples
mod Scenarios
