-- ===== src/Lib.antt =====
-- A model of torch_checkpointing, which saves and loads the state of distributed training.
--
-- The parts and how they interact. The saver (`AsyncCheckpointSaver`) takes the staging lock for
-- writing, asks the metadata manager for the serialized metadata of all ranks, copies the state into
-- the staging buffer, and hands it to a subprocess that writes it; the lock is downgraded when staging
-- is over and released when the write is. The subprocess caches the metadata that it was sent last, so
-- the saver sends it only when it has changed. When a checkpoint is loaded by another number of
-- ranks, the resharder reads from the metadata which rank saved which part of a tensor, and plans the
-- copies. A consolidation can rewrite the files of all ranks into a few that hold whole tensors.
--
--   Prelude: shared names, lists over the native numbers, equality, dictionaries and results.
--   Lock: `RWLock` of torch_checkpointing/lock.py. `acquire` is `_acquire`; the loop on the condition
--     variable takes what each wake-up sees as a list. Lock.Threads is a step relation of any
--     number of threads.
--   Metadata.Cache: the caching half of `DefaultMetadataManager` of
--     torch_checkpointing/metadata_manager.py, and `_get_serialized_metadata`. A bytes object
--     is its content with an identity, which `is` compares.
--   Types: the paths of torch_checkpointing/types.py.
--   Metadata.Gather, Metadata.Merge: `_all_gather_pickled_data`, `_compact`,
--     `_merge_object_metadata_from_ranks` and `_aggregate_metadata_across_ranks` of the same file, as one
--     run of all ranks. pickle and the collectives of torch are parameters; a set of paths is a
--     list without repetitions, in the order in which the paths are met.
--   Data, Layout, Mesh.Dicts, Distributed: the dictionaries that `to_dict` writes, as a data type; the formats
--     and layouts of torch_checkpointing/checkpoint_layout.py, the DTensor metadata of
--     torch_checkpointing/dtensor_metadata.py, and the metadata of all ranks of
--     torch_checkpointing/distributed_metadata.py with its two versions, its validation and its
--     lookups. JSON texts, the import of classes and foreign subclasses are parameters.
--     `aggregate_metadata` is `_aggregate_metadata` on several ranks; the gathered layouts are an argument.
--   Schema: torch_checkpointing/schema.py. The search and the replacement of the placeholder are parameters.
--   Walk: torch_checkpointing/walk_utils.py. Python values are two mutual data types for containers, with
--     the type of each object as a number that the parameter `subtype` compares. `_walk` is
--     `walk_into`, and `walk_source` where the target is None.
--   Saver: torch_checkpointing/checkpoint_saver.py with the write path of
--     torch_checkpointing/checkpoint_process.py. One state holds the lock, the futures, the manager and
--     the subprocess; `act` is one call, one completion or one callback, and `run` is any sequence of them. The
--     environment chooses what fails. A save that has to wait for the lock is the one that tries again
--     later: between two rounds of its loop the saver does nothing.
--   Manager: the futures of `CheckpointManager` of torch_checkpointing/checkpoint_manager.py, and in
--     Manager.Close what its `close` waits for and closes.
--   Mesh: meshes, placements and coordinates of torch_checkpointing/dtensor_metadata.py.
--   Tensors: the geometry of torch_checkpointing/tensor_slice.py, and `contiguous_strides` of
--     torch_checkpointing/serialized_tensor_slice.py.
--   Slices, Resharder: the geometry and the loops over the groups and ranks of one path in
--     `_generate_load_plans` of torch_checkpointing/default_resharder.py; Resharder.Generate has its loop over
--     paths and its end. torch's computation of a
--     shard's shape and offset is a parameter; that both have one entry per dimension is assumed.
--   Resharder.Fqn, Resharder.Chunks, Resharder.Aliases: torch_checkpointing/resharding_utils.py, names of
--     paths, plans for the same place of a target, and targets that share an address, which is a number or, for what is no tensor or an empty one, `none`.
--   Resharder.Reads: the offset reads of torch_checkpointing/default_resharder.py. A stream is what `readinto`
--     gives at a position; Reads.Exact.IsStreamOf says what Python documents of one over a file.
--     `as_strided` keeps its bytes, sizes and strides.
--   Writer, Storage: torch_checkpointing/checkpoint_writer.py over the directories of
--     torch_checkpointing/storage/filesystem.py. A step of `WriteStep` is a part of `write` on one rank: its
--     directories, one file, part of a file, the metadata, the arrival at the barrier, its end, and the
--     rename with what follows. A rank that raises takes no more steps. The serializers and `str` are
--     parameters; a rename is one step, as it is on one file system.
--   Barriers: torch_checkpointing/barriers.py. The store counts the calls of torch's `barrier` for a key, which
--     lets a rank go on when as many ranks as the world has have called it.
--   Consolidation: torch_checkpointing/hf/consolidation.py. Owners assigns output files to ranks by size;
--     Group chooses the ranks that take part and their process group; Reads is the memory budget and the generator that reads ahead under it, whose consumer asks for a
--     number of tensors and then closes it. The reads themselves are a parameter, and they are looked
--     at in the order in which the generator waits for them.
--
-- Loops are structural recursion on the lists that the source walks. Only `_read_exact` is on fuel: one round
-- for each byte of its buffer and one for the last test are enough, as each round reads a byte or is the last. Sizes, offsets
-- and ranks are native numbers, as none is ever negative in the source; `None` is `none`, and an
-- exception is an `err` or a constructor of the outcome.
--
-- Not modelled: the copies of torch and CUDA (staging), the formats of files, the reader, the callbacks of the
-- writer, the connections to stores, the identity of containers that a walk changes in place, logging and configuration.
pub mod Barriers
pub mod Consolidation
pub mod Data
pub mod Distributed
pub mod Layout
pub mod Lock
pub mod Manager
pub mod Mesh
pub mod Metadata
pub mod Prelude
pub mod Resharder
pub mod Saver
pub mod Schema
pub mod Slices
pub mod Storage
pub mod Tensors
pub mod Types
pub mod Walk
pub mod Writer
