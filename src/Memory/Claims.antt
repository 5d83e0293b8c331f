-- ===== src/Memory/Claims.antt =====
-- What a caller of `claim_next` of src/keziah/queue/memory.py may rely on.
pub mod Found
pub mod Sound
pub mod Lost
pub mod Accepted
pub mod Maintained
