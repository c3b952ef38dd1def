-- ===== src/Uploader/Spool.antt =====
-- uploader/proscan-windows/spool.go: the state and its methods. The proofs stand in the children.
pub mod Disk
pub mod Delay
pub mod State
pub mod Methods
pub mod Open
pub mod Claims
pub mod Recovery
pub mod Invariant
pub mod Changes
pub mod Growth
pub mod Ensures
pub mod Queue
pub mod Keep
pub mod Finish
pub mod Restart
pub mod Faults
pub mod Learn
pub mod Runs
pub mod Accept
pub mod Steps
pub mod Knows
