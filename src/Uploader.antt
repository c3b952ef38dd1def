-- ===== src/Uploader.antt =====
-- uploader/proscan-windows: the Windows sender, from a recording to a confirmed upload.
pub mod Model
pub mod Effects
pub mod Config
pub mod Client
pub mod Spool
pub mod Fingerprint
pub mod ProScan
pub mod App
pub mod Mp3
pub mod Id3
