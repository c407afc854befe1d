-- ===== src/Sources/Uploads.antt =====
-- internal/service/source.go: sources, the inventories that their users upload, and downloads.
mod Forms
mod Changes
mod Downloads
unfoldable pub use Forms.*
unfoldable pub use Changes.*
unfoldable pub use Downloads.*
