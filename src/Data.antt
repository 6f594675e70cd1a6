-- ===== src/Data.antt =====
-- The dictionaries that the `to_dict` methods return: None, numbers, strings, lists, tuples and dicts,
-- with strings or with ranks as keys, as mutual data types. A value of another type than a field's, on which the source would
-- fail later, is read as an error.
use torch_checkpointing.Prelude.{
  ℕ, ◌≡◌, refl, Option, none, some, String, List, [], ◌∷◌, ◌==◌, string_eq, if◌then◌else◌,
}
use torch_checkpointing.Prelude.Result.{Result, ok, err, ◌>>=◌}

mutual
  pub data Data : Type 0 where
    null : Data
    number : ℕ → Data
    text : String → Data
    list : Datas → Data
    tuple : Datas → Data
    dict : Members → Data
    dict_by_rank : RankMembers → Data

  pub data Datas : Type 0 where
    no_datas : Datas
    datum : Data → Datas → Datas

  pub data Members : Type 0 where
    no_members : Members
    member : String → Data → Members → Members

  pub data RankMembers : Type 0 where
    no_ranks : RankMembers
    at_rank : ℕ → Data → RankMembers → RankMembers

pub data FormatError : Type 0 where
  missing_key : String → FormatError
  unknown_type : String → FormatError
  wrong_type : FormatError
  invalid : FormatError

unfoldable pub member_of : String → Members → Option Data
member_of k no_members = none
member_of k (member j v ms) = if j == k then some v else member_of k ms

-- `d.get(k)`
unfoldable pub get_field : String → Data → Option Data
unfolding member_of
get_field k (dict ms) = member_of k ms
get_field k d = none

-- `d[k]`
unfoldable pub field : String → Data → Result FormatError Data
unfolding get_field
field k d = elim (get_field k d) [ none ↦ err (missing_key k) | some v ↦ ok v ]

unfoldable pub as_text : Data → Result FormatError String
as_text (text s) = ok s
as_text d = err wrong_type

unfoldable pub as_number : Data → Result FormatError ℕ
as_number (number n) = ok n
as_number d = err wrong_type

-- The items of a list or a tuple.
unfoldable pub items_of : Data → Result FormatError Datas
items_of (list ds) = ok ds
items_of (tuple ds) = ok ds
items_of d = err wrong_type

-- The items of a tuple, where the source needs one that can be hashed.
unfoldable pub hashable_items : Data → Result FormatError Datas
hashable_items (tuple ds) = ok ds
hashable_items d = err wrong_type

module _ {A : Type 0} (to : A → Data) where
  unfoldable pub map_to : List A → Datas
  map_to [] = no_datas
  map_to (a ∷ rest) = datum (to a) (map_to rest)

module _ {A : Type 0} (from : Data → Result FormatError A) where
  unfoldable pub map_from : Datas → Result FormatError (List A)
  map_from no_datas = ok []
  map_from (datum d ds) = do a ← from d; rest ← map_from ds; ok (a ∷ rest)

module _ {A : Type 0} (to : A → Data) (from : Data → Result FormatError A) where
  -- What is read back item by item is read back as a list.
  abbrev pub ReadsBack : List A → Type 0
  ReadsBack [] = Unit
  ReadsBack (a ∷ items) = (from (to a) ≡ ok a) × ReadsBack items

  pub map_from-map_to :
      (items : List A) → ReadsBack items → map_from from (map_to to items) ≡ ok items
  unfolding map_to map_from
  map_from-map_to [] h = refl
  map_from-map_to (a ∷ items) h = rw (h.0, map_from-map_to items h.1) refl

  pub all-ReadsBack : ((a : A) → from (to a) ≡ ok a) → (items : List A) → ReadsBack items
  all-ReadsBack h [] = tt
  all-ReadsBack h (a ∷ items) = (h a, all-ReadsBack h items)

abbrev pub numbers : List ℕ → Datas
numbers ns = map_to number ns

abbrev pub read_numbers : Datas → Result FormatError (List ℕ)
read_numbers ds = map_from as_number ds

pub read_numbers-numbers : (ns : List ℕ) → read_numbers (numbers ns) ≡ ok ns
unfolding as_number
read_numbers-numbers ns =
    map_from-map_to number as_number ns (all-ReadsBack number as_number (λ n. refl) ns)

abbrev pub texts : List String → Datas
texts ss = map_to text ss

abbrev pub read_texts : Datas → Result FormatError (List String)
read_texts ds = map_from as_text ds

pub read_texts-texts : (ss : List String) → read_texts (texts ss) ≡ ok ss
unfolding as_text
read_texts-texts ss = map_from-map_to text as_text ss (all-ReadsBack text as_text (λ s. refl) ss)
