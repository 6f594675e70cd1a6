-- ===== src/Consolidation.antt =====
-- torch_checkpointing/hf/consolidation.py: which rank writes which file, and how its tensors are read.
pub mod Group
pub mod Owners
pub mod Reads
mod Tests
