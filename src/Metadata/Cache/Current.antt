-- ===== src/Metadata/Cache/Current.antt =====
-- That the serialized metadata is that of the items (torch_checkpointing/metadata_manager.py).
use torch_checkpointing.Prelude.{
  ℕ, ◌≡◌, refl, inl, inr, Bool, true, not, ◌&&◌, Option, none, some, Eq, arith, Bool-cases,
}
use torch_checkpointing.Prelude.Result.{Result, ok, err}
use torch_checkpointing.Metadata.Cache.{
  SaveError, Blob, Computed, Manager, Collectives, get_serialized_metadata,
  get_serialized_computed_metadata, compute_distributed_metadata, after_compute, keep_serialized,
  keep_computed, get_computed_metadata, cache_matches, invalidate_computed_metadata,
  has_computed_metadata, computed_metadata_matches, all_ranks_agree,
}

module _ {Local Global Content : Type 0} (serialize : Global → Content) where
  -- A kept object is the serialization of the metadata that is computed now.
  abbrev pub IsSerialized : Option (Computed Local Global) → Option (Blob Content) → Type 0
  IsSerialized c none = Unit
  IsSerialized none (some b) = ⊥
  IsSerialized (some c) (some b) = b.content ≡ serialize c.distributed_metadata

module _ {Local Layouts Global Content : Type 0} (serialize : Global → Content) where
  abbrev pub IsCurrent : Manager Local Layouts Global Content → Type 0
  IsCurrent m = IsSerialized serialize m.computed_metadata m.serialized_metadata

  -- What a call returns: the bytes are the serialization of metadata that is kept, of which `P` holds.
  abbrev pub ReturnsOf :
      (Computed Local Global → Option Layouts → Type 0)
      → Result SaveError (Blob Content) × Manager Local Layouts Global Content
      → Type 0
  ReturnsOf P (err e, m) = IsCurrent m
  ReturnsOf P (ok blob, m) =
      (c : Computed Local Global) × (m.computed_metadata ≡ some c)
      × (m.serialized_metadata ≡ some blob)
      × (blob.content ≡ serialize c.distributed_metadata)
      × P c m.computed_layout_info

  returns_by_parts :
      (P : Computed Local Global → Option Layouts → Type 0) (c : Option (Computed Local Global))
      (l : Option Layouts) (kept : Option (Blob Content)) (n : ℕ)
      → IsSerialized serialize c kept
      → ((x : Computed Local Global) → c ≡ some x → P x l)
      → ReturnsOf P (
          get_serialized_computed_metadata serialize (record {
            computed_metadata = c;
            computed_layout_info = l;
            serialized_metadata = kept;
            next_object = n;
          }))
  unfolding get_serialized_computed_metadata keep_serialized get_computed_metadata
  returns_by_parts P none l none n h p = tt
  returns_by_parts P none l (some b) n h p = elim h [ ]
  returns_by_parts P (some c) l none n h p = (c, refl, refl, refl, p c refl)
  returns_by_parts P (some c) l (some b) n h p = (c, refl, refl, h, p c refl)

module _ {Items Local Layouts Global : Type 0} (extract_object_metadata : Items → Local)
    (resharded_item_layouts : Items → Layouts) where
  -- The metadata is that of the items.
  abbrev pub IsOf : Items → Computed Local Global → Option Layouts → Type 0
  IsOf items c l =
      (c.local_metadata ≡ extract_object_metadata items) × (l ≡ some (resharded_item_layouts items))

module _ {Items Local Layouts Global Content : Type 0} ⦃eq_local : Eq Local⦄
    ⦃eq_layouts : Eq Layouts⦄ (extract_object_metadata : Items → Local)
    (resharded_item_layouts : Items → Layouts) (serialize : Global → Content) where
  matches_by_parts :
      (items : Items) (x : Option (Computed Local Global)) (l : Option Layouts)
      (kept : Option (Blob Content)) (n : ℕ)
      → computed_metadata_matches extract_object_metadata resharded_item_layouts
          (record {
            computed_metadata = x;
            computed_layout_info = l;
            serialized_metadata = kept;
            next_object = n;
          })
          items
        ≡ true
      → (c : Computed Local Global) → x ≡ some c
      → IsOf extract_object_metadata resharded_item_layouts items c l
  unfolding computed_metadata_matches cache_matches
  matches_by_parts items none l kept n h c e = ground arith
  matches_by_parts items (some x) none kept n h c e = ground arith
  matches_by_parts items (some x) (some y) kept n h c e = ground (
    arith,
    eq_local.equal_iff x.local_metadata (extract_object_metadata items),
    eq_layouts.equal_iff y (resharded_item_layouts items),
  )

  matches-IsOf :
      (m : Manager Local Layouts Global Content) (items : Items)
      → computed_metadata_matches extract_object_metadata resharded_item_layouts m items ≡ true
      → (c : Computed Local Global) → m.computed_metadata ≡ some c
      → IsOf extract_object_metadata resharded_item_layouts items c m.computed_layout_info
  matches-IsOf m items =
      matches_by_parts items m.computed_metadata m.computed_layout_info m.serialized_metadata
        m.next_object

  returns :
      (P : Computed Local Global → Option Layouts → Type 0)
      (m : Manager Local Layouts Global Content)
      → IsCurrent serialize m
      → ((x : Computed Local Global) → m.computed_metadata ≡ some x → P x m.computed_layout_info)
      → ReturnsOf serialize P (get_serialized_computed_metadata serialize m)
  returns P m =
      returns_by_parts serialize P m.computed_metadata m.computed_layout_info m.serialized_metadata
        m.next_object

  keep_computed-ReturnsOf :
      (validate : Bool) (items : Items) (r : Result SaveError Global)
      (m : Manager Local Layouts Global Content)
      → ReturnsOf serialize
          (λ c l. validate ≡ true → IsOf extract_object_metadata resharded_item_layouts items c l)
          (after_compute extract_object_metadata resharded_item_layouts serialize (
            keep_computed extract_object_metadata resharded_item_layouts
              (invalidate_computed_metadata m)
              items
              r))
  unfolding after_compute keep_computed invalidate_computed_metadata
      get_serialized_computed_metadata keep_serialized get_computed_metadata
  keep_computed-ReturnsOf validate items (err e) m = tt
  keep_computed-ReturnsOf validate items (ok g) m = (_, refl, refl, refl, λ v. (refl, refl))

  all_ranks_agree-own : (d o v : Bool) → all_ranks_agree d o v ≡ true → v ≡ true
  unfolding all_ranks_agree
  all_ranks_agree-own d o v h = ground arith

  -- From a manager whose kept bytes are the serialization of its computed metadata, a call of
  -- `_get_serialized_metadata` either raises and leaves the manager such, or returns the serialization
  -- of the metadata that is then computed; and under `validate` that was computed for the local
  -- metadata and the resharding layouts of the items of this very call.
  pub get_serialized_metadata-ReturnsOf :
      (validate : Bool) (c : Collectives Items Local Global)
      (m : Manager Local Layouts Global Content) (items : Items)
      → IsCurrent serialize m
      → ReturnsOf serialize
          (λ x l. validate ≡ true → IsOf extract_object_metadata resharded_item_layouts items x l)
          (get_serialized_metadata extract_object_metadata resharded_item_layouts serialize validate
            c m items)
  unfolding get_serialized_metadata compute_distributed_metadata after_compute
  get_serialized_metadata-ReturnsOf validate c m items h =
      let matches =
        computed_metadata_matches extract_object_metadata resharded_item_layouts m items in
      elim (Bool-cases (has_computed_metadata m)) [
        | inl e ↦ rw e (elim (Bool-cases (validate && not matches)) [
          | inl e2 ↦ rw e2 h
          | inr e2 ↦ rw e2 (returns _ m h λ x q v. matches-IsOf m items (ground arith) x q)
        ])
        | inr e ↦
            rw e (elim (Bool-cases (all_ranks_agree c.is_distributed c.others_agree matches)) [
              | inl e2 ↦
                  rw e2
                    (returns _ m h λ x q v. matches-IsOf m items (all_ranks_agree-own _ _ _ e2) x q)
              | inr e2 ↦ rw e2 (
                  keep_computed-ReturnsOf validate items
                    (c.aggregate_metadata (extract_object_metadata items) items) m)
            ])
      ]
