-- ===== src/Barriers/Tests.antt =====
-- Two ranks at two barriers in a row, with numbers in strokes.
use Prim.Native.String.{◌++◌ as ◌<>◌, count}
use text.Mathlib.TextLemmas.{append_cancel_left, length-append}
use torch_checkpointing.Prelude.{ℕ, zero, suc, ◌≡◌, ◌∙◌, refl, sym, ap, String, arith}
use torch_checkpointing.Prelude.Result.{err}
use torch_checkpointing.Barriers.{
  BarrierConfig, default_store, empty_key_prefix, checked_config, barrier_key,
  next_barrier_generation, World, BarrierRun, here, next, enter, leave,
}
use torch_checkpointing.Barriers.Together.{HasEntered, HasLeft, BarrierRun-together}

strokes : ℕ → String
strokes zero = ""
strokes (suc n) = "|" <> strokes n

joined : String → String → String
joined p s = p <> s

-- Counting the strokes gives the number back.
count-strokes : (n : ℕ) → count (strokes n) ≡ n
unfolding strokes
count-strokes zero = refl
count-strokes (suc n) = omega (arith, length-append "|" (strokes n), count-strokes n)

strokes-injective : (a b : ℕ) → strokes a ≡ strokes b → a ≡ b
strokes-injective a b e = sym (count-strokes a) ∙ ap count e ∙ count-strokes b

joined-injective : (p s t : String) → joined p s ≡ joined p t → s ≡ t
unfolding joined
joined-injective p s t e = append_cancel_left p s t e

abbrev config : BarrierConfig
config = default_store "torch_checkpointing_barrier" (next_barrier_generation strokes "0" 0).0

refused : checked_config (default_store "" "0.0") ≡ err empty_key_prefix
unfolding checked_config
refused = refl

-- The first rank has left the first barrier and waits at the second, the other is still at the first.
run : (w : World) × BarrierRun 2 (barrier_key strokes joined config) w
unfolding barrier_key strokes joined next_barrier_generation
run = (
  _,
  (next
      (next (next (next here (enter 1 0 (omega arith) refl)) (enter 0 0 (omega arith) refl))
        (leave 0 0 (omega arith) refl (omega arith)))
      (enter 0 1 (omega arith) refl)),
)

left : HasLeft 0 (run.0.rank 0)
unfolding run
left = omega arith

BarrierRun-together_example : HasEntered 0 (run.0.rank 1)
BarrierRun-together_example =
    BarrierRun-together strokes joined strokes-injective joined-injective config 2 run.1 0 0
      (omega arith) left 1 (omega arith)
