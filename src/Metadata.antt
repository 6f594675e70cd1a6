-- ===== src/Metadata.antt =====
-- Metadata of a checkpoint: torch_checkpointing/metadata_manager.py and the modules around it.
pub mod Cache
pub mod Gather
pub mod Merge
mod Tests
