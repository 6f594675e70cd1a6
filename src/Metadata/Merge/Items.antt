-- ===== src/Metadata/Merge/Items.antt =====
-- The paths that the merge goes through, and what it looks up for each.
use torch_checkpointing.Prelude.{
  ℕ, ◌≡◌, ◌⊎◌, inl, inr, ◌∙◌, refl, sym, ap, true, none, some, String, List, [], ◌∷◌, ◌++◌, ◌==◌,
  arith, Bool-cases, list_eq, string_eq, if◌then◌else◌, list_beq_iff, ◌||◌,
}
use torch_checkpointing.Prelude.Dict.{Dict, get, put, keys, get-put}
use torch_checkpointing.Types.{NestedPath, path_key_eq}
use torch_checkpointing.Mesh.{ShardingMetadata}
use torch_checkpointing.Resharder.{GlobalObjectMetadata}
use torch_checkpointing.Metadata.Merge.{
  ItemMetadata, LocalMetadata, lookup, Holds, is_in, update_paths, paths_of, add_items, all_items,
  group_ranks, global_objects, merge_paths, merge_items, lookup-cons,
}

is_in-append :
    (p q : NestedPath) (seen : List NestedPath)
    → is_in p (seen ++ q ∷ []) ≡ (is_in p seen || (q == p))
unfolding is_in
is_in-append p q [] = ground arith
is_in-append p q (x ∷ seen) = ground (arith, is_in-append p q seen)

update_paths-keeps :
    (p : NestedPath) (seen ps : List NestedPath)
    → is_in p seen ≡ true
    → is_in p (update_paths seen ps) ≡ true
unfolding update_paths
update_paths-keeps p seen [] h = h
update_paths-keeps p seen (q ∷ ps) h = elim (Bool-cases (is_in q seen)) [
  | inl known ↦ rw known (update_paths-keeps p seen ps h)
  | inr new ↦
      rw new (update_paths-keeps p (seen ++ q ∷ []) ps (ground (arith, is_in-append p q seen)))
]

-- A path that is added is there, whether it was known or not.
added :
    (p q : NestedPath) (seen : List NestedPath)
    → (q == p) ≡ true
    → is_in p (if is_in q seen then seen else seen ++ q ∷ []) ≡ true
added p q seen same = elim (Bool-cases (is_in q seen)) [
  | inl known ↦ rw known (ap (λ t. is_in t seen) (sym ((list_beq_iff q p).0 same)) ∙ known)
  | inr new ↦ rw new (ground (arith, is_in-append p q seen))
]

update_paths-adds :
    (p : NestedPath) (ps seen : List NestedPath)
    → is_in p ps ≡ true
    → is_in p (update_paths seen ps) ≡ true
unfolding update_paths is_in
update_paths-adds p [] seen h = ground arith
update_paths-adds p (q ∷ ps) seen h = elim (Bool-cases (q == p)) [
  | inl same ↦ update_paths-keeps p _ ps (added p q seen same)
  | inr differ ↦ update_paths-adds p ps _ (rw differ at h)
]

get-is_in :
    (p : NestedPath) (paths : ItemMetadata) {md : ShardingMetadata}
    → get p paths ≡ some md
    → is_in p (keys paths) ≡ true
unfolding is_in
get-is_in p [] h = ground arith
get-is_in p ((q, m) ∷ paths) h = elim (Bool-cases (q == p)) [
  | inl same ↦ rw same refl
  | inr differ ↦ rw differ (get-is_in p paths (rw differ at h))
]

paths_of-put :
    (item i : String) (paths : List NestedPath) (all : Dict String (List NestedPath))
    → paths_of item (put i paths all) ≡ (if i == item then paths else paths_of item all)
unfolding paths_of
paths_of-put item i paths all = ground (arith, get-put i item paths all)

paths_of-cons :
    (item i : String) (paths : List NestedPath) (all : Dict String (List NestedPath))
    → paths_of item ((i, paths) ∷ all) ≡ (if i == item then paths else paths_of item all)
unfolding paths_of
paths_of-cons item i paths all = ground (arith, string_eq.equal_iff i item)

unfoldable pub Known : String → NestedPath → Dict String (List NestedPath) → Type 0
Known item path all = is_in path (paths_of item all) ≡ true

put-Known :
    (item i : String) (path : NestedPath) (paths : ItemMetadata)
    (all : Dict String (List NestedPath))
    → Known item path all ⊎ ((i ≡ item) × (is_in path (keys paths) ≡ true))
    → Known item path (put i (update_paths (paths_of i all) (keys paths)) all)
unfolding Known
put-Known item i path paths all h =
    rw (paths_of-put item i (update_paths (paths_of i all) (keys paths)) all)
      (elim (Bool-cases (i == item)) [
        | inl same ↦ rw same (elim h [
          | inl known ↦
              update_paths-keeps path (paths_of i all) (keys paths) (
                ap (λ t. is_in path (paths_of t all)) ((string_eq.equal_iff i item).0 same) ∙ known)
          | inr (_, e) ↦ update_paths-adds path (keys paths) (paths_of i all) e
        ])
        | inr differ ↦ rw differ (elim h [
          | inl known ↦ known
          | inr (e, _) ↦ absurd (ground (arith, string_eq.equal_iff i item))
        ])
      ])

add_items-Known :
    (item : String) (path : NestedPath) (d : LocalMetadata) (all : Dict String (List NestedPath))
    → Known item path all ⊎ ((md : ShardingMetadata) × (lookup item path d ≡ some md))
    → Known item path (add_items d all)
unfolding add_items lookup
add_items-Known item path [] all (inl known) = known
add_items-Known item path [] all (inr (md, e)) = absurd (ground arith)
add_items-Known item path ((i, paths) ∷ d) all h =
    add_items-Known item path d (put i (update_paths (paths_of i all) (keys paths)) all) (elim h [
      | inl known ↦ inl (put-Known item i path paths all (inl known))
      | inr (md, e) ↦ elim (Bool-cases (i == item)) [
        | inl same ↦ inl (
            put-Known item i path paths all (
              inr (
                (string_eq.equal_iff i item).0 same,
                get-is_in path paths (rw (lookup-cons i item path paths d, same) at e),
              )))
        | inr differ ↦ inr (md, rw (lookup-cons i item path paths d, differ) at e)
      ]
    ])

pub all_items-Known :
    (item : String) (path : NestedPath) (r : ℕ) (md : ShardingMetadata)
    (ranks : Dict ℕ LocalMetadata) (all : Dict String (List NestedPath))
    → Known item path all ⊎ Holds item path r md ranks
    → Known item path (all_items ranks all)
unfolding all_items
all_items-Known item path r md [] all (inl known) = known
all_items-Known item path r md [] all (inr held) = elim held [ ]
all_items-Known item path r md ((q, d) ∷ ranks) all h =
    all_items-Known item path r md ranks (add_items d all) (elim h [
      | inl known ↦ inl (add_items-Known item path d all (inl known))
      | inr (inl (_, e)) ↦ inl (add_items-Known item path d all (inr (md, e)))
      | inr (inr held) ↦ inr held
    ])

module _ (meta_key : ShardingMetadata → String) (ranks : Dict ℕ LocalMetadata) where
  unfoldable pub built : String → NestedPath → List GlobalObjectMetadata
  built item path = global_objects meta_key (group_ranks meta_key item path ranks [])

  merge_paths-get :
      (item : String) (path : NestedPath) (paths : List NestedPath)
      → get path (merge_paths meta_key ranks item paths)
        ≡ (if is_in path paths then some (built item path) else none)
  unfolding merge_paths is_in built
  merge_paths-get item path [] = refl
  merge_paths-get item path (p ∷ paths) = elim (Bool-cases (p == path)) [
    | inl same ↦ rw (same, (list_beq_iff p path).0 same) refl
    | inr differ ↦ rw differ (merge_paths-get item path paths)
  ]

  pub merge_items-lookup :
      (item : String) (path : NestedPath) (items : Dict String (List NestedPath))
      → lookup item path (merge_items meta_key ranks items)
        ≡ (if is_in path (paths_of item items) then some (built item path) else none)
  unfolding merge_items lookup is_in paths_of
  merge_items-lookup item path [] = refl
  merge_items-lookup item path ((i, paths) ∷ items) =
      let step =
        lookup-cons i item path (merge_paths meta_key ranks i paths)
          (merge_items meta_key ranks items) in
      elim (Bool-cases (i == item)) [
        | inl same ↦
            rw (step, paths_of-cons item i paths items, same)
              (ap (λ t. get path (merge_paths meta_key ranks t paths))
                  ((string_eq.equal_iff i item).0 same)
                ∙ merge_paths-get item path paths)
        | inr differ ↦
            rw (step, paths_of-cons item i paths items, differ) (merge_items-lookup item path items)
      ]
