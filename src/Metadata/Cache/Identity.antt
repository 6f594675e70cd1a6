-- ===== src/Metadata/Cache/Identity.antt =====
-- The identity of the serialized metadata (torch_checkpointing/metadata_manager.py).
use torch_checkpointing.Prelude.{
  ℕ, ◌<◌, ◌≤◌, ◌≡◌, refl, ◌⊎◌, inl, inr, Bool, not, ◌&&◌, Option, none, some, Eq, arith, Bool-cases,
}
use torch_checkpointing.Prelude.Result.{Result, ok, err}
use torch_checkpointing.Metadata.Cache.{
  SaveError, Blob, Computed, Manager, Collectives, get_serialized_metadata,
  get_serialized_computed_metadata, compute_distributed_metadata, after_compute, keep_serialized,
  keep_computed, get_computed_metadata, invalidate_computed_metadata, has_computed_metadata,
  computed_metadata_matches, all_ranks_agree,
}

module _ {Local Layouts Global Content : Type 0} where
  -- What the manager keeps is an object that is already allocated.
  abbrev pub IsAllocated : Manager Local Layouts Global Content → Type 0
  IsAllocated m = (c : Blob Content) → m.serialized_metadata ≡ some c → c.object < m.next_object

  -- What a call returns, from the manager `old`: the new manager keeps the object that is returned,
  -- which is the one kept before, or a new one.
  abbrev pub Returned :
      Manager Local Layouts Global Content
      → Result SaveError (Blob Content) × Manager Local Layouts Global Content
      → Type 0
  Returned old (err e, m) = IsAllocated m
  Returned old (ok blob, m) =
      (m.serialized_metadata ≡ some blob)
      × (blob.object < m.next_object)
      × ((old.serialized_metadata ≡ some blob) ⊎ (old.next_object ≤ blob.object))

  -- Nothing was allocated, and the kept object, if it is still there, is the one from before.
  abbrev pub Forgets :
      Manager Local Layouts Global Content → Manager Local Layouts Global Content → Type 0
  Forgets old m =
      (m.next_object ≡ old.next_object)
      × ((m.serialized_metadata ≡ none) ⊎ (m.serialized_metadata ≡ old.serialized_metadata))

  pub invalidate_computed_metadata-Forgets :
      (m : Manager Local Layouts Global Content) → Forgets m (invalidate_computed_metadata m)
  unfolding invalidate_computed_metadata
  invalidate_computed_metadata-Forgets m = (refl, inl refl)

  module _ (serialize : Global → Content) where
    keep_serialized-Returned :
        (r : Result SaveError (Computed Local Global)) (m : Manager Local Layouts Global Content)
        → IsAllocated m
        → Returned m (keep_serialized serialize r m)
    unfolding keep_serialized
    keep_serialized-Returned (err e) m h = h
    keep_serialized-Returned (ok c) m h = (refl, ground arith, inr (ground arith))

    get_serialized_parts-Returned :
        (c : Option (Computed Local Global)) (l : Option Layouts) (kept : Option (Blob Content))
        (n : ℕ)
        (h : IsAllocated (record {
          computed_metadata = c;
          computed_layout_info = l;
          serialized_metadata = kept;
          next_object = n;
        }))
        → Returned
            (record {
              computed_metadata = c;
              computed_layout_info = l;
              serialized_metadata = kept;
              next_object = n;
            })
            (get_serialized_computed_metadata serialize (record {
              computed_metadata = c;
              computed_layout_info = l;
              serialized_metadata = kept;
              next_object = n;
            }))
    unfolding get_serialized_computed_metadata keep_serialized get_computed_metadata
    get_serialized_parts-Returned none l none n h = h
    get_serialized_parts-Returned (some c) l none n h = (refl, ground arith, inr (ground arith))
    get_serialized_parts-Returned c l (some b) n h = (refl, h b refl, inl refl)

    get_serialized_computed_metadata-Returned :
        (m : Manager Local Layouts Global Content)
        → IsAllocated m
        → Returned m (get_serialized_computed_metadata serialize m)
    get_serialized_computed_metadata-Returned m h =
        get_serialized_parts-Returned m.computed_metadata m.computed_layout_info
          m.serialized_metadata m.next_object h

module _ {Items Local Layouts Global Content : Type 0} ⦃eq_local : Eq Local⦄
    ⦃eq_layouts : Eq Layouts⦄ (extract_object_metadata : Items → Local)
    (resharded_item_layouts : Items → Layouts) (serialize : Global → Content) where
  keep_computed-Forgets :
      (r : Result SaveError Global) (items : Items) (m : Manager Local Layouts Global Content)
      → Forgets m
          (keep_computed extract_object_metadata resharded_item_layouts
            (invalidate_computed_metadata m)
            items
            r).1
  unfolding keep_computed invalidate_computed_metadata
  keep_computed-Forgets (err e) items m = (refl, inl refl)
  keep_computed-Forgets (ok g) items m = (refl, inl refl)

  pub compute_distributed_metadata-Forgets :
      (c : Collectives Items Local Global) (m : Manager Local Layouts Global Content)
      (items : Items)
      → Forgets m
          (compute_distributed_metadata extract_object_metadata resharded_item_layouts c m items).1
  unfolding compute_distributed_metadata
  compute_distributed_metadata-Forgets c m items =
      elim (Bool-cases (
        all_ranks_agree c.is_distributed c.others_agree
          (computed_metadata_matches extract_object_metadata resharded_item_layouts m items))) [
            | inl e ↦ rw e (refl, inr refl)
            | inr e ↦ rw e (
                keep_computed-Forgets (c.aggregate_metadata (extract_object_metadata items) items)
                  items m)
          ]

  keep_computed-Returned :
      (r : Result SaveError Global) (items : Items) (m : Manager Local Layouts Global Content)
      → IsAllocated m
      → Returned m (
          after_compute extract_object_metadata resharded_item_layouts serialize (
            keep_computed extract_object_metadata resharded_item_layouts
              (invalidate_computed_metadata m)
              items
              r))
  unfolding after_compute keep_computed invalidate_computed_metadata
      get_serialized_computed_metadata keep_serialized get_computed_metadata
  keep_computed-Returned (err e) items m h = λ c q. ground arith
  keep_computed-Returned (ok g) items m h = (refl, ground arith, inr (ground arith))

  -- The object that `_get_serialized_metadata` returns is the one that the manager keeps from then on; it
  -- is allocated, and either the one that the manager kept before the call or a new one.
  pub get_serialized_metadata-Returned :
      (validate : Bool) (c : Collectives Items Local Global)
      (m : Manager Local Layouts Global Content) (items : Items)
      → IsAllocated m
      → Returned m (
          get_serialized_metadata extract_object_metadata resharded_item_layouts serialize validate
            c m items)
  unfolding get_serialized_metadata compute_distributed_metadata after_compute
  get_serialized_metadata-Returned validate c m items h =
      elim (Bool-cases (has_computed_metadata m)) [
        | inl e ↦
            rw e
              (elim (Bool-cases (
                validate
                && not (
                    computed_metadata_matches extract_object_metadata resharded_item_layouts m
                      items))) [
                        | inl e2 ↦ rw e2 h
                        | inr e2 ↦ rw e2 (get_serialized_computed_metadata-Returned serialize m h)
                      ])
        | inr e ↦
            rw e
              (elim (Bool-cases (
                all_ranks_agree c.is_distributed c.others_agree (
                  computed_metadata_matches extract_object_metadata resharded_item_layouts m
                    items))) [
                      | inl e2 ↦ rw e2 (get_serialized_computed_metadata-Returned serialize m h)
                      | inr e2 ↦ rw e2 (
                          keep_computed-Returned
                            (c.aggregate_metadata (extract_object_metadata items) items) items m h)
                    ])
      ]
