-- ===== src/Writer/Protocol/Atomic/Saved.antt =====
-- The files that the ranks have written before the rename of torch_checkpointing/checkpoint_writer.py.
use mathlib.Core.Path.{subst}
use torch_checkpointing.Prelude.{
  ℕ, zero, suc, ◌≡◌, ◌≢◌, ◌⊎◌, inl, inr, refl, sym, Option, none, some, List, [], ◌∷◌, ◌++◌,
  get_elem?, Among, eqb, arith, Bool-cases, ◌==◌, string_eq, list_eq, eqb_iff,
}
use torch_checkpointing.Prelude.Result.{ok, Result-cases}
use torch_checkpointing.Storage.{Disk, write_file}
use torch_checkpointing.Writer.{SaveItem, metadata_items, metadata_file_name}
use torch_checkpointing.Writer.Protocol.{
  Phase, starting, writing, keys_written, saved, waiting, passed, done, remove_at, Job, update,
  Arrived, dir, planned, pending, write_all,
}
use torch_checkpointing.Writer.Protocol.Atomic.Files.{
  Stored, write_file-Stored_own, write_file-Stored,
}

-- No two ranks write a file of the same path, and no rank writes two different ones.
abbrev pub IsDistinct : Job → Type 0
IsDistinct job =
    (i j : ℕ) (a b : SaveItem)
    → Among a (planned job i)
    → Among b (planned job j)
    → a.file ≡ b.file
    → (i ≡ j) × (a ≡ b)

pub remove_at-Among :
    (xs ys : List SaveItem) (k : ℕ) (a b : SaveItem)
    → get_elem? xs k ≡ some a
    → Among b (xs ++ ys)
    → Among b (remove_at xs k ++ ys) ⊎ (b ≡ a)
remove_at-Among [] ys k a b e h = ground arith
remove_at-Among (x ∷ xs) ys zero a b e (zero, f) = inr (ground arith)
remove_at-Among (x ∷ xs) ys zero a b e (suc m, f) = inl (m, f)
remove_at-Among (x ∷ xs) ys (suc k) a b e (zero, f) = inl (0, f)
remove_at-Among (x ∷ xs) ys (suc k) a b e (suc m, f) = elim (remove_at-Among xs ys k a b e (m, f)) [
  | inl (j, g) ↦ inl (suc j, g)
  | inr same ↦ inr same
]

pub Among-remove_at :
    (xs ys : List SaveItem) (k : ℕ) (b : SaveItem)
    → Among b (remove_at xs k ++ ys)
    → Among b (xs ++ ys)
Among-remove_at [] ys k b h = h
Among-remove_at (x ∷ xs) ys zero b (m, f) = (suc m, f)
Among-remove_at (x ∷ xs) ys (suc k) b (zero, f) = (0, f)
Among-remove_at (x ∷ xs) ys (suc k) b (suc m, f) =
    let (j, g) = Among-remove_at xs ys k b (m, f) in (suc j, g)

pub Among-append :
    (xs ys : List SaveItem) (k : ℕ) (a : SaveItem) → get_elem? xs k ≡ some a → Among a (xs ++ ys)
Among-append [] ys k a e = ground arith
Among-append (x ∷ xs) ys zero a e = (0, e)
Among-append (x ∷ xs) ys (suc k) a e = let (j, g) = Among-append xs ys k a e in (suc j, g)

module _ (job : Job) where
  -- What a rank in a phase has done to the temporary directory.
  pub record HasSaved (disk : Disk) (i : ℕ) (p : Phase) : Type 0 where
    pub left : (a : SaveItem) → Among a (pending job i p) → Among a (planned job i)
    pub kept :
        (a : SaveItem)
        → Among a (planned job i)
        → Among a (pending job i p) ⊎ Stored (dir job) disk a

module _ (job : Job) (distinct : IsDistinct job) where
  -- A rank that writes one of its files spoils no other, of no rank.
  write-HasSaved :
      (disk disk' : Disk) (i : ℕ) (item : SaveItem) (content : List ℕ)
      → Among item (planned job i)
      → write_file (dir job) item.file content disk ≡ ok disk'
      → (j : ℕ) (a : SaveItem) → Among a (planned job j)
      → Stored (dir job) disk a
      → Stored (dir job) disk' a ⊎ ((i ≡ j) × (item ≡ a))
  write-HasSaved disk disk' i item content mine wrote j a theirs stored =
      elim (Bool-cases (item.file == a.file)) [
        | inl same ↦
            inr (distinct i j item a mine theirs ((string_eq.equal_iff item.file a.file).0 same))
        | inr differ ↦ inl (
            write_file-Stored (dir job) disk disk' item.file content wrote a
              (λ e. ground (arith, string_eq.equal_iff item.file a.file)) stored)
      ]

  each-update :
      (disk : Disk) (phase : ℕ → Phase) (i : ℕ) (q : Phase)
      → ((j : ℕ) → i ≢ j → HasSaved job disk j (phase j))
      → HasSaved job disk i q
      → (j : ℕ) → HasSaved job disk j (update phase i q j)
  each-update disk phase i q others own j = elim (Bool-cases (eqb i j)) [
    | inl same ↦ rw same (subst (λ k. HasSaved job disk k q) ((eqb_iff i j).0 same) own)
    | inr differ ↦ rw differ (others j (λ e. ground (arith, eqb_iff i j)))
  ]

  -- A rank writes one of its files in full.
  pub wrote-each :
      (disk disk' : Disk) (phase : ℕ → Phase) (i : ℕ) (q : Phase) (item : SaveItem)
      (content : List ℕ)
      → ((j : ℕ) → HasSaved job disk j (phase j))
      → Among item (planned job i)
      → item.content ≡ ok content
      → write_file (dir job) item.file content disk ≡ ok disk'
      → ((a : SaveItem)
          → Among a (pending job i (phase i))
          → Among a (pending job i q) ⊎ (a ≡ item))
      → ((a : SaveItem) → Among a (pending job i q) → Among a (planned job i))
      → (j : ℕ) → HasSaved job disk' j (update phase i q j)
  wrote-each disk disk' phase i q item content old mine full wrote fewer within =
      each-update disk' phase i q
        (λ j differ. record {
          left = (old j).left;
          kept = λ a theirs. elim ((old j).kept a theirs) [
            | inl later ↦ inl later
            | inr there ↦
                elim (write-HasSaved disk disk' i item content mine wrote j a theirs there) [
                  | inl still ↦ inr still
                  | inr (same, _) ↦ absurd (differ same)
                ]
          ];
        })
        (record {
          left = within;
          kept = λ a theirs. elim ((old i).kept a theirs) [
            | inl later ↦ elim (fewer a later) [
              | inl still ↦ inl still
              | inr same ↦ inr (own a (sym same))
            ]
            | inr there ↦
                elim (write-HasSaved disk disk' i item content mine wrote i a theirs there) [
                  | inl still ↦ inr still
                  | inr (_, same) ↦ inr (own a same)
                ]
          ];
        })
    where
      own : (a : SaveItem) → item ≡ a → Stored (dir job) disk' a
      own a same =
          subst (Stored (dir job) disk') same
            (write_file-Stored_own (dir job) disk disk' item.file content wrote item refl full)

  -- A file that is written in part is one that is still pending.
  pub part-each :
      (disk disk' : Disk) (phase : ℕ → Phase) (i : ℕ) (item : SaveItem) (part : List ℕ)
      → ((j : ℕ) → HasSaved job disk j (phase j))
      → Among item (pending job i (phase i))
      → write_file (dir job) item.file part disk ≡ ok disk'
      → (j : ℕ) → HasSaved job disk' j (phase j)
  part-each disk disk' phase i item part old open' wrote j = record {
    left = (old j).left;
    kept = λ a theirs. elim ((old j).kept a theirs) [
      | inl later ↦ inl later
      | inr there ↦
          elim (write-HasSaved disk disk' i item part ((old i).left item open') wrote j a theirs
            there) [
              | inl still ↦ inr still
              | inr (rank, same) ↦ inl (
                  subst (λ b. Among b (pending job j (phase j))) same
                    (subst (λ k. Among item (pending job k (phase k))) rank open'))
            ]
    ];
  }

  -- The disk keeps what is stored, and a rank moves on with the same files pending.
  pub moved-each :
      (disk disk' : Disk) (phase : ℕ → Phase) (i : ℕ) (p q : Phase)
      → ((j : ℕ) → HasSaved job disk j (phase j))
      → ((a : SaveItem) → Stored (dir job) disk a → Stored (dir job) disk' a)
      → phase i ≡ p
      → pending job i q ≡ pending job i p
      → (j : ℕ) → HasSaved job disk' j (update phase i q j)
  moved-each disk disk' phase i p q old keeps at same =
      each-update disk' phase i q (λ j differ. still j (phase j) (old j))
        (record {
          left = rw same ((still i p (rw at at (old i))).left);
          kept = rw same ((still i p (rw at at (old i))).kept);
        })
    where
      still : (j : ℕ) (p : Phase) → HasSaved job disk j p → HasSaved job disk' j p
      still j p h = record {
        left = h.left;
        kept = λ a theirs. elim (h.kept a theirs) [
          | inl later ↦ inl later
          | inr there ↦ inr (keeps a there)
        ];
      }

  pub Arrived-pending : (i : ℕ) (p : Phase) → Arrived p → pending job i p ≡ []
  Arrived-pending i starting h = absurd h
  Arrived-pending i (writing left) h = absurd h
  Arrived-pending i keys_written h = absurd h
  Arrived-pending i saved h = absurd h
  Arrived-pending i waiting h = refl
  Arrived-pending i passed h = refl
  Arrived-pending i done h = refl

  pub write_all-written :
      (item : SaveItem) (items : List SaveItem) (disk : Disk) {disk' : Disk}
      → write_all job (item ∷ items) disk ≡ some disk'
      → (content : List ℕ) × (after : Disk) × (item.content ≡ ok content)
        × (write_file (dir job) item.file content disk ≡ ok after)
        × (write_all job items after ≡ some disk')
  write_all-written item items disk h = elim (Result-cases item.content) [
    | inl (e, bad) ↦ absurd (ground arith)
    | inr (content, good) ↦ elim (Result-cases (write_file (dir job) item.file content disk)) [
      | inl (e, bad) ↦ absurd (ground arith)
      | inr (after, wrote) ↦ (content, after, good, wrote, ground arith)
    ]
  ]

  -- There is no metadata to write, or one file of it.
  pub metadata_items-cases :
      (i : ℕ) (metadata : Option (List ℕ))
      → (metadata_items i metadata ≡ [])
        ⊎ ((item : SaveItem) × (metadata_items i metadata ≡ item ∷ []))
  unfolding metadata_items
  metadata_items-cases i none = inl refl
  metadata_items-cases i (some []) = inl refl
  metadata_items-cases i (some (b ∷ bs)) = elim (Bool-cases (eqb i 0)) [
    | inl first ↦ inr (record { file = metadata_file_name; content = ok (b ∷ bs) }, rw first refl)
    | inr other ↦ inl (rw other refl)
  ]
