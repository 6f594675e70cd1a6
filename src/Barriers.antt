-- ===== src/Barriers.antt =====
-- torch_checkpointing/barriers.py: the keys of a barrier, and the ranks that execute barriers one after the other.
-- The store is the number of calls of `store_util.barrier` for each key, which pauses a rank until at least
-- `world_size` have called it with that key. `str_of` is `str` on a number.
pub mod Together
mod Tests
use Prim.Native.String.{◌++◌ as ◌<>◌}
use torch_checkpointing.Prelude.{
  ℕ, zero, suc, ◌+◌, ◌≤◌, ◌<◌, ◌≡◌, Bool, true, false, String, ◌==◌, string_eq, eqb, if◌then◌else◌,
}
use torch_checkpointing.Prelude.Result.{Result, ok, err}

-- `TCPStoreBarrierConfig` and `DefaultStoreBarrierConfig`, with what names their keys.
pub data BarrierConfig : Type 0 where
  tcp_store : (key_prefix : String) → BarrierConfig
  default_store : (key_prefix generation : String) → BarrierConfig

pub data BarrierError : Type 0 where
  empty_key_prefix : BarrierError

-- `DefaultStoreBarrierConfig.__post_init__`
unfoldable pub checked_config : BarrierConfig → Result BarrierError BarrierConfig
checked_config (tcp_store key_prefix) = ok (tcp_store key_prefix)
checked_config (default_store key_prefix generation) =
    if key_prefix == "" then err empty_key_prefix else ok (default_store key_prefix generation)

-- `_next_barrier_generation`, from the restart count and the counter of the process.
unfoldable pub next_barrier_generation : (ℕ → String) → String → ℕ → String × ℕ
next_barrier_generation str_of restart_count sequence =
    (restart_count <> "." <> str_of sequence, sequence + 1)

module _ (str_of : ℕ → String) (prefix_store : String → String → String) where
  -- The key of the barrier with a sequence number; `PrefixStore` puts a prefix before each key.
  unfoldable pub barrier_key : BarrierConfig → ℕ → String
  barrier_key (tcp_store key_prefix) seq = key_prefix <> str_of seq
  barrier_key (default_store key_prefix generation) seq =
      prefix_store (key_prefix <> "/" <> generation) (str_of seq)

-- A rank with its `_barrier_seq`, or `_tcp_store_barrier_seq`.
pub data Rank : Type 0 where
  outside : (seq : ℕ) → Rank
  inside : (seq : ℕ) → Rank
  timed_out : (seq : ℕ) → Rank  -- `execute_barrier` has raised

pub record World : Type 0 where
  pub store : String → ℕ
  pub rank : ℕ → Rank

abbrev pub add_one : String → (String → ℕ) → String → ℕ
add_one key store other = if key == other then store other + 1 else store other

abbrev pub update : (ℕ → Rank) → ℕ → Rank → ℕ → Rank
update rank i r j = if eqb i j then r else rank j

module _ (world_size : ℕ) (key : ℕ → String) where
  -- `execute_barrier` of one of the ranks: the call, and its return or its timeout.
  pub data BarrierStep (w : World) : World → Type 0 where
    enter :
        (i seq : ℕ)
        → i < world_size
        → w.rank i ≡ outside seq
        → BarrierStep w
            (record { store = add_one (key seq) w.store; rank = update w.rank i (inside seq) })
    leave :
        (i seq : ℕ)
        → i < world_size
        → w.rank i ≡ inside seq
        → world_size ≤ w.store (key seq)
        → BarrierStep w (record { store = w.store; rank = update w.rank i (outside (seq + 1)) })
    time_out :
        (i seq : ℕ)
        → i < world_size
        → w.rank i ≡ inside seq
        → BarrierStep w (record { store = w.store; rank = update w.rank i (timed_out seq) })

  pub data BarrierRun : World → Type 0 where
    here : BarrierRun (record { store = λ k. 0; rank = λ i. outside 0 })
    next : {w u : World} → BarrierRun w → BarrierStep w u → BarrierRun u
