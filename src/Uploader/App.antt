-- ===== src/Uploader/App.antt =====
-- uploader/proscan-windows/app.go: the watched directories, the files that settle, the workers and what
-- is done with a recording that the server has.
pub mod Start
pub mod Paths
pub mod Observe
pub mod Ready
pub mod Worker
pub mod Source
