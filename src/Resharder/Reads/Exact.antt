-- ===== src/Resharder/Reads/Exact.antt =====
-- `_read_exact` of torch_checkpointing/default_resharder.py, over a file.
use mathlib.Core.Path.{subst}
use torch_checkpointing.Prelude.{
  ℕ, zero, suc, ◌+◌, ◌-◌, ◌≤◌, ◌<◌, ◌≡◌, ◌⊎◌, inl, inr, refl, sym, ap, ◌∙◌, true, List, [], ◌∷◌,
  ◌++◌, eqb, eqb_iff, length, take, drop, arith, Bool-cases,
}
use torch_checkpointing.Prelude.Result.{Result, ok, err, ◌>>=◌}
use torch_checkpointing.Resharder.Reads.{ReadError, end_of_file, Stream, read_rest, read_exact}

plus_suc : (k m : ℕ) → suc k + m ≡ suc (k + m)
plus_suc k m = omega arith

take-[] : (n : ℕ) → take {A = ℕ} n [] ≡ []
take-[] zero = refl
take-[] (suc n) = refl

pub take-add : (k m : ℕ) (xs : List ℕ) → take (k + m) xs ≡ take k xs ++ take m (drop k xs)
take-add zero m xs = ap (λ n. take n xs) (omega arith)
take-add (suc k) m [] = rw (take-[] m, take-[] (suc k + m)) refl
take-add (suc k) m (x ∷ xs) =
    ap (λ n. take n (x ∷ xs)) (plus_suc k m) ∙ ap (λ t. x ∷ t) (take-add k m xs)

drop-[] : (n : ℕ) → drop {A = ℕ} n [] ≡ []
drop-[] zero = refl
drop-[] (suc n) = refl

pub drop-drop : (k p : ℕ) (xs : List ℕ) → drop k (drop p xs) ≡ drop (p + k) xs
drop-drop k zero xs = ap (λ n. drop n xs) (omega arith)
drop-drop k (suc p) [] = rw (drop-[] k, drop-[] (suc p + k)) refl
drop-drop k (suc p) (x ∷ xs) = drop-drop k p xs ∙ ap (λ n. drop n (x ∷ xs)) (sym (plus_suc p k))

pub take-drop-take :
    (m k n : ℕ) (xs : List ℕ) → k + m ≤ n → take m (drop k (take n xs)) ≡ take m (drop k xs)
take-drop-take m k n [] h = rw (take-[] n, drop-[] k) refl
take-drop-take zero k n xs h = refl
take-drop-take (suc m) k zero (x ∷ xs) h = absurd (omega arith)
take-drop-take (suc m) zero (suc n) (x ∷ xs) h =
    ap (λ t. x ∷ t) (take-drop-take m 0 n xs (omega arith))
take-drop-take (suc m) (suc k) (suc n) (x ∷ xs) h = take-drop-take (suc m) k n xs (omega arith)

pub length-drop : (k : ℕ) (xs : List ℕ) → length (drop k xs) ≡ length xs - k
length-drop zero xs = omega arith
length-drop (suc k) [] = omega arith
length-drop (suc k) (x ∷ xs) = length-drop k xs ∙ omega arith

pub length-take : (k : ℕ) (xs : List ℕ) → length (take k xs) ≤ length xs
length-take zero xs = omega arith
length-take (suc k) [] = omega arith
length-take (suc k) (x ∷ xs) = omega (arith, length-take k xs)

List-cases : (xs : List ℕ) → (xs ≡ []) ⊎ ((x : ℕ) × (rest : List ℕ) × (xs ≡ x ∷ rest))
List-cases [] = inl refl
List-cases (x ∷ xs) = inr (x, xs, refl)

-- What Python documents of a raw stream over a file: `readinto` gives the bytes from its position on, at
-- most as many as the buffer holds, and some unless the file is at its end; `seek` goes where it shall.
pub record IsStreamOf (content : List ℕ) (s : Stream) : Type 0 where
  pub exact : (p n : ℕ) → s.readinto p n ≡ take (length (s.readinto p n)) (drop p content)
  pub bounded : (p n : ℕ) → length (s.readinto p n) ≤ n
  pub progress : (p n : ℕ) → 0 < n → p < length content → 0 < length (s.readinto p n)
  pub seeks : (p : ℕ) → s.position_after_seek p ≡ p

-- What a read from a position on gives, when `wanted` bytes are still to come.
unfoldable ReadsFrom : List ℕ → ℕ → ℕ → ℕ → Result ReadError (List ℕ) → Type 0
ReadsFrom content offset position wanted r =
    (wanted ≤ length content - position → r ≡ ok (take wanted (drop position content)))
    × (length content - position < wanted → r ≡ err (end_of_file offset (length content - offset)))

module _ (content : List ℕ) (s : Stream) (r : IsStreamOf content s) where
  whole_chunk :
      (p w : ℕ) (bs : List ℕ) → bs ≡ s.readinto p w → bs ≡ take (length bs) (drop p content)
  whole_chunk p w bs chunk =
      subst (λ c. c ≡ take (length c) (drop p content)) (sym chunk) (r.exact p w)

  length-chunk : (p w : ℕ) (bs : List ℕ) → bs ≡ s.readinto p w → length bs ≤ length content - p
  length-chunk p w bs chunk = omega (
    arith,
    ap length (whole_chunk p w bs chunk),
    length-take (length bs) (drop p content),
    length-drop p content,
  )

  next_chunk :
      (fuel offset n w : ℕ) (bs : List ℕ)
      → 0 < length bs
      → bs ≡ s.readinto (offset + n) w
      → ReadsFrom content offset
          (offset + (n + length bs))
          (w - length bs)
          (read_rest s fuel offset (n + length bs) (w - length bs))
      → ReadsFrom content offset
          (offset + n)
          w
          (read_rest s fuel offset (n + length bs) (w - length bs) >>= λ rest. ok (bs ++ rest))
  unfolding ReadsFrom
  next_chunk fuel offset n w bs some_bytes chunk rest =
      let p = offset + n in
      let within : length bs ≤ w = subst (λ c. length c ≤ w) (sym chunk) (r.bounded p w) in
      let same = whole_chunk (offset + n) w bs chunk in
      let inside = length-chunk (offset + n) w bs chunk in
      let split : length bs + (w - length bs) ≡ w = omega arith in
      let further : p + length bs ≡ offset + (n + length bs) = omega arith in
      let together : bs ++ take (w - length bs) (drop (offset + (n + length bs)) content)
          ≡ take w (drop p content) =
        ap (λ q. bs ++ take (w - length bs) (drop q content)) (sym further)
        ∙ ap (λ t. bs ++ take (w - length bs) t) (sym (drop-drop (length bs) p content))
        ∙ ap (λ c. c ++ take (w - length bs) (drop (length bs) (drop p content))) same
        ∙ sym (take-add (length bs) (w - length bs) (drop p content))
        ∙ ap (λ k. take k (drop p content)) split in
      (
        λ enough. rw (rest.0 (omega arith)) (ap ok together),
        λ short. rw (rest.1 (omega arith)) refl,
      )

  read_rest-ReadsFrom :
      (fuel offset n w : ℕ)
      → w < fuel
      → n ≤ length content - offset
      → ReadsFrom content offset (offset + n) w (read_rest s fuel offset n w)
  unfolding read_rest ReadsFrom
  read_rest-ReadsFrom zero offset n w enough inside = absurd (omega arith)
  read_rest-ReadsFrom (suc fuel) offset n w enough inside = elim (Bool-cases (eqb w 0)) [
    | inl done ↦
        let none_left : w ≡ 0 = (eqb_iff w 0).0 done in
        (λ h. rw (done, read_rest) (rw none_left refl), λ h. absurd (omega arith))
    | inr wanted ↦
        let some_left : 0 < w = ground (arith, wanted) in
        elim (List-cases (s.readinto (offset + n) w)) [
          | inl nothing ↦
              let read_none : length (s.readinto (offset + n) w) ≡ 0 = ap length nothing in
              let at_end : length content ≤ offset + n =
                grind (arith, r.progress (offset + n) w some_left) in
              (
                λ h. absurd (omega arith),
                λ h.
                    rw (wanted, nothing, read_rest)
                      (ap (λ k. err (end_of_file offset k)) (omega arith)),
              )
          | inr (b, bs, chunk) ↦
              let within : length (b ∷ bs) ≤ w =
                subst (λ c. length c ≤ w) chunk (r.bounded (offset + n) w) in
              let there = length-chunk (offset + n) w (b ∷ bs) (sym chunk) in
              rw (wanted, chunk, read_rest)
                (next_chunk fuel offset n w (b ∷ bs) (omega arith) (sym chunk) (
                  read_rest-ReadsFrom fuel offset (n + length (b ∷ bs)) (w - length (b ∷ bs))
                    (omega arith) (omega arith)))
        ]
  ]

  -- For a file with `content`, `_read_exact` ends with the bytes from the offset on when the file has
  -- them, and otherwise raises EOFError, which tells how many bytes the file has there.
  pub read_exact-Reads :
      (offset size : ℕ)
      → (size ≤ length content - offset
          → read_exact s offset size ≡ ok (take size (drop offset content)))
        × (length content - offset < size
            → read_exact s offset size ≡ err (end_of_file offset (length content - offset)))
  unfolding read_exact ReadsFrom
  read_exact-Reads offset size =
      let there : eqb (s.position_after_seek offset) offset ≡ true =
        (eqb_iff (s.position_after_seek offset) offset).1 (r.seeks offset) in
      let from_start : offset + 0 ≡ offset = omega arith in
      let read : ReadsFrom content offset offset size (read_rest s (suc size) offset 0 size) =
        subst (λ p. ReadsFrom content offset p size (read_rest s (suc size) offset 0 size))
          from_start (read_rest-ReadsFrom (suc size) offset 0 size (omega arith) (omega arith)) in
      (λ h. rw there (read.0 h), λ h. rw there (read.1 h))
