-- ===== src/Tests.antt =====
-- Runs of the model on concrete data, and the theorems at concrete inputs.
mod Spools
mod Uploader
mod Audio
mod Sender
mod App
mod Server
mod Receive
mod Handover
mod Users
