-- ===== src/Memory/Keeps.antt =====
-- Every method of src/keziah/queue/memory.py keeps the invariant of keziah.Memory.Invariant.
mod Shapes
pub mod Indexed
pub mod Hints
pub mod HintedClaims
pub mod Settle
pub mod Lease
pub mod Maintain
pub mod Submit
pub mod Batches
pub mod Gate
