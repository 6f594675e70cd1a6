-- ===== src/Saver.antt =====
-- torch_checkpointing/checkpoint_saver.py and the subprocess of torch_checkpointing/checkpoint_process.py.
mod Tests
pub mod State
pub mod System
