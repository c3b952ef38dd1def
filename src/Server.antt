-- ===== src/Server.antt =====
-- backend/cmd/server: the quota, the sign-in, the metadata, the two requests of an upload and the
-- administration of users.
pub mod Limits
pub mod Login
pub mod Metadata
pub mod Ingest
pub mod Users
