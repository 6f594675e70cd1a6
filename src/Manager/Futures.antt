-- ===== src/Manager/Futures.antt =====
-- The futures of `CheckpointManager` of torch_checkpointing/checkpoint_manager.py.
use torch_checkpointing.Prelude.{◌≡◌, refl, Bool, true, false, Option, none, some, arith}
use torch_checkpointing.Manager.{
  Progress, running, done, broken, CheckpointManager, Closes, started, prewarm_staging,
}

-- There is no such future, or it has succeeded.
abbrev pub IsOver : Option Progress → Type 0
IsOver none = Unit
IsOver (some done) = Unit
IsOver (some _) = ⊥

-- What a prewarm that starts has found, and leaves.
pub record Prewarms (m m' : CheckpointManager) : Type 0 where
  pub is_open : m.is_closed ≡ false
  pub no_prewarm : IsOver m.prewarm_staging_future
  pub no_write : IsOver m.write_future
  pub no_staging : (m.write_future ≡ none) → IsOver m.staging_future
  pub left :
      (m'.write_future ≡ none)
      × (m'.staging_future ≡ none)
      × (m'.prewarm_staging_future ≡ some running)

cleared :
    (ps : Closes) (p s w : Option Progress) (items any : Bool)
    → (prewarm_staging true items any (record {
      prewarm_staging_future = p;
      staging_future = s;
      write_future = w;
      is_closed = false;
      closes = ps;
    })).0
      ≡ started
    → Prewarms
        (record {
          prewarm_staging_future = p;
          staging_future = s;
          write_future = w;
          is_closed = false;
          closes = ps;
        })
        (prewarm_staging true items any (record {
          prewarm_staging_future = p;
          staging_future = s;
          write_future = w;
          is_closed = false;
          closes = ps;
        })).1
unfolding prewarm_staging
cleared ps p s (some running) items any h = ground arith
cleared ps p s (some broken) items any h = ground arith
cleared ps (some running) s (some done) items any h = ground arith
cleared ps (some broken) s (some done) items any h = ground arith
cleared ps none s (some done) false any h = ground arith
cleared ps none s (some done) true false h = ground arith
cleared ps none s (some done) true true h = record {
  is_open = refl;
  no_prewarm = tt;
  no_write = tt;
  no_staging = λ q. ground arith;
  left = (refl, refl, refl);
}
cleared ps (some done) s (some done) false any h = ground arith
cleared ps (some done) s (some done) true false h = ground arith
cleared ps (some done) s (some done) true true h = record {
  is_open = refl;
  no_prewarm = tt;
  no_write = tt;
  no_staging = λ q. ground arith;
  left = (refl, refl, refl);
}
cleared ps p (some running) none items any h = ground arith
cleared ps p (some broken) none items any h = ground arith
cleared ps (some running) none none items any h = ground arith
cleared ps (some broken) none none items any h = ground arith
cleared ps none none none false any h = ground arith
cleared ps none none none true false h = ground arith
cleared ps none none none true true h = record {
  is_open = refl;
  no_prewarm = tt;
  no_write = tt;
  no_staging = λ q. tt;
  left = (refl, refl, refl);
}
cleared ps (some done) none none false any h = ground arith
cleared ps (some done) none none true false h = ground arith
cleared ps (some done) none none true true h = record {
  is_open = refl;
  no_prewarm = tt;
  no_write = tt;
  no_staging = λ q. tt;
  left = (refl, refl, refl);
}
cleared ps (some running) (some done) none items any h = ground arith
cleared ps (some broken) (some done) none items any h = ground arith
cleared ps none (some done) none false any h = ground arith
cleared ps none (some done) none true false h = ground arith
cleared ps none (some done) none true true h = record {
  is_open = refl;
  no_prewarm = tt;
  no_write = tt;
  no_staging = λ q. tt;
  left = (refl, refl, refl);
}
cleared ps (some done) (some done) none false any h = ground arith
cleared ps (some done) (some done) none true false h = ground arith
cleared ps (some done) (some done) none true true h = record {
  is_open = refl;
  no_prewarm = tt;
  no_write = tt;
  no_staging = λ q. tt;
  left = (refl, refl, refl);
}

opened :
    (ps : Closes) (c : Bool) (p s w : Option Progress) (items any : Bool)
    → (prewarm_staging true items any (record {
      prewarm_staging_future = p;
      staging_future = s;
      write_future = w;
      is_closed = c;
      closes = ps;
    })).0
      ≡ started
    → Prewarms
        (record {
          prewarm_staging_future = p;
          staging_future = s;
          write_future = w;
          is_closed = c;
          closes = ps;
        })
        (prewarm_staging true items any (record {
          prewarm_staging_future = p;
          staging_future = s;
          write_future = w;
          is_closed = c;
          closes = ps;
        })).1
unfolding prewarm_staging
opened ps true p s w items any h = ground arith
opened ps false p s w items any h = cleared ps p s w items any h

-- A prewarm that starts has found an open manager with no active or failed prewarm or write, and,
-- unless a write was over, no active or failed staging; it leaves no future but its own.
pub prewarm_staging-Prewarms :
    (has_stager items any : Bool) (m : CheckpointManager)
    → (prewarm_staging has_stager items any m).0 ≡ started
    → Prewarms m (prewarm_staging has_stager items any m).1
unfolding prewarm_staging
prewarm_staging-Prewarms false items any m h = ground arith
prewarm_staging-Prewarms true items any m h =
    opened m.closes m.is_closed m.prewarm_staging_future m.staging_future m.write_future items any h
