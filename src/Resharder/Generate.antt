-- ===== src/Resharder/Generate.antt =====
-- `_generate_load_plans` of torch_checkpointing/default_resharder.py: its loop over paths, and the
-- deduplication at its end.
pub mod Kept
pub mod Listed
pub mod Paths
pub mod Renamed
pub mod Whole
mod Tests
use torch_checkpointing.Prelude.{
  ℕ, Bool, true, false, ◌&&◌, Option, none, some, String, List, [], ◌∷◌, ◌++◌, ◌==◌, ltb, string_eq,
  list_eq, if◌then◌else◌,
}
use torch_checkpointing.Prelude.Result.{Result, ok, err, ◌>>=◌}
use torch_checkpointing.Prelude.Dict.{Dict, get, put}
use torch_checkpointing.Types.{NestedPath, path_key_eq}
use torch_checkpointing.Mesh.{ShardingMetadata, dtensor, other}
use torch_checkpointing.Resharder.{
  DTensorPlacement, ReshardError, LoadPlan, GlobalObjectMetadata, Shape, PathPlans, no_plans,
  compute_local_shard_info, plan_groups,
}
use torch_checkpointing.Resharder.Fqn.{
  Collision, get_fqn_from_nested_path, convert_nested_path_dict_to_fqn,
}
use torch_checkpointing.Resharder.Chunks.{deduplicate_source_chunks}

pub record ReshardingInfo : Type 0 where
  pub nested_path_to_load_plans : Dict NestedPath (List LoadPlan)
  pub non_reshardable_paths : List NestedPath

pub data PlanError : Type 0 where
  no_shard : ReshardError → PlanError
  collides : Collision → PlanError
  missing_key : PlanError

-- What a round of the loop does with its path; `nothing` where an empty shard has no plans.
pub data PathOutcome : Type 0 where
  planned : (first : LoadPlan) (others : List LoadPlan) → PathOutcome
  not_reshardable : PathOutcome
  nothing : PathOutcome

unfoldable pub all_positive : List ℕ → Bool
all_positive [] = true
all_positive (size ∷ sizes) = ltb 0 size && all_positive sizes

unfoldable pub outcome_of : Shape → List LoadPlan → PathOutcome
unfolding all_positive
outcome_of tgt (lp ∷ plans) = planned lp plans
outcome_of tgt [] = if all_positive tgt.sizes then not_reshardable else nothing

abbrev pub outcome_of_groups : Shape → Option PathPlans → PathOutcome
outcome_of_groups tgt none = not_reshardable
outcome_of_groups tgt (some st) = outcome_of tgt st.plans

abbrev pub wrapped {ℓ} : {A : Type ℓ} → Result ReshardError A → Result PlanError A
wrapped (ok a) = ok a
wrapped (err e) = err (no_shard e)

module _ (local_shape_and_global_offset : List ℕ → List ℕ → List ℕ → List DTensorPlacement → Shape)
    (str_of : ℕ → String) (current_rank : ℕ) where
  unfoldable pub plan_path :
      NestedPath
      → ShardingMetadata
      → Option (List GlobalObjectMetadata)
      → Result ReshardError PathOutcome
  unfolding outcome_of
  plan_path path (other k) groups = ok not_reshardable
  plan_path path (dtensor md) none = ok not_reshardable
  plan_path path (dtensor md) (some groups) = do
    tgt ← compute_local_shard_info local_shape_and_global_offset md current_rank
    st ←
        plan_groups local_shape_and_global_offset tgt (get_fqn_from_nested_path str_of path) groups
          no_plans
    ok (outcome_of_groups tgt st)

  unfoldable pub with_outcome : NestedPath → PathOutcome → ReshardingInfo → ReshardingInfo
  with_outcome path (planned lp plans) info = record info {
    nested_path_to_load_plans = put path (lp ∷ plans) info.nested_path_to_load_plans;
  }
  with_outcome path not_reshardable info = record info {
    non_reshardable_paths = info.non_reshardable_paths ++ path ∷ [];
  }
  with_outcome path nothing info = info

  -- `for nested_path, target_sharding in target_metadata.items()`
  unfoldable pub plan_paths :
      Dict NestedPath (List GlobalObjectMetadata)
      → Dict NestedPath ShardingMetadata
      → ReshardingInfo
      → Result ReshardError ReshardingInfo
  plan_paths source [] info = ok info
  plan_paths source ((path, target) ∷ rest) info = do
    outcome ← plan_path path target (get path source)
    plan_paths source rest (with_outcome path outcome info)

-- `{fqn_to_path[fqn]: plans for fqn, plans in optimized_str_result.items()}`, with the entries so far
unfoldable pub renamed :
    Dict String NestedPath
    → Dict String (List LoadPlan)
    → Dict NestedPath (List LoadPlan)
    → Option (Dict NestedPath (List LoadPlan))
renamed fqn_to_path [] result = some result
renamed fqn_to_path ((fqn, plans) ∷ rest) result = elim (get fqn fqn_to_path) [
  | none ↦ none
  | some path ↦ renamed fqn_to_path rest (put path plans result)
]

abbrev pub or_key_error {ℓ} : {A : Type ℓ} → Option A → Result PlanError A
or_key_error none = err missing_key
or_key_error (some a) = ok a

abbrev pub or_collision {ℓ} : {A : Type ℓ} → Result Collision A → Result PlanError A
or_collision (err c) = err (collides c)
or_collision (ok a) = ok a

-- The plans that are left.
unfoldable pub optimized :
    (ℕ → String)
    → Dict NestedPath (List LoadPlan)
    → Result PlanError (Dict NestedPath (List LoadPlan))
optimized str_of [] = ok []
optimized str_of (entry ∷ result) = do
  keyed ← or_collision (convert_nested_path_dict_to_fqn str_of (entry ∷ result))
  optimized_str_result ← or_key_error (deduplicate_source_chunks keyed.0)
  or_key_error (renamed keyed.1 optimized_str_result [])

unfoldable pub generate_load_plans :
    (List ℕ → List ℕ → List ℕ → List DTensorPlacement → Shape)
    → (ℕ → String)
    → ℕ
    → Dict NestedPath ShardingMetadata
    → Dict NestedPath (List GlobalObjectMetadata)
    → Result PlanError ReshardingInfo
generate_load_plans torch str_of rank target source = do
  info ← wrapped (
      plan_paths torch str_of rank source target
        (record { nested_path_to_load_plans = []; non_reshardable_paths = [] }))
  plans ← optimized str_of info.nested_path_to_load_plans
  ok (record info { nested_path_to_load_plans = plans })
