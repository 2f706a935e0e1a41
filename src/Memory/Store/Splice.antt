-- ===== src/Memory/Store/Splice.antt =====
-- A write inside a part of the bytes is a write to the part.
use geck.Prelude.{
  ℕ, zero, suc, ◌+◌, ◌≤◌, ◌≡◌, refl, sym, ap, ◌∙◌, List, [], ◌∷◌, ◌++◌, some, length, take, drop,
  ◌>>=◌, arith,
}
use geck.Memory.Store.{read_slice, write_slice}
use geck.Memory.Store.Slices.{
  write_slice_bound, write_slice_in_range, length-write_slice, length-take, length-drop,
}

-- `v` over the bytes at an offset.
abbrev splice : List ℕ → ℕ → List ℕ → List ℕ
splice xs o v = take o xs ++ (v ++ drop (o + length v) xs)

take-overwrite :
    (v xs : List ℕ) (n : ℕ)
    → length v ≤ n
    → length v ≤ length xs
    → take n (v ++ drop (length v) xs) ≡ v ++ drop (length v) (take n xs)
take-overwrite [] xs n h h' = refl
take-overwrite (a ∷ v) [] n h h' = elim h' [ ]
take-overwrite (a ∷ v) (x ∷ xs) zero h h' = elim h [ ]
take-overwrite (a ∷ v) (x ∷ xs) (suc n) h h' =
    ap (◌∷◌ a) (take-overwrite v xs n (omega arith) (omega arith))

take-splice :
    (k : ℕ) (v xs : List ℕ) (n : ℕ)
    → k + length v ≤ n
    → k + length v ≤ length xs
    → take n (splice xs k v) ≡ splice (take n xs) k v
take-splice zero v xs n h h' =
    let start : 0 + length v ≡ length v = omega arith in
    rw start (take-overwrite v xs n (omega arith) (omega arith))
take-splice (suc k) v [] n h h' = absurd (omega arith)
take-splice (suc k) v (x ∷ xs) zero h h' = absurd (omega arith)
take-splice (suc k) v (x ∷ xs) (suc n) h h' =
    let next : suc k + length v ≡ suc (k + length v) = omega arith in
    rw next (ap (◌∷◌ x) (take-splice k v xs n (omega arith) (omega arith)))

drop-splice :
    (b k : ℕ) (v xs : List ℕ)
    → b + k + length v ≤ length xs
    → drop b (splice xs (b + k) v) ≡ splice (drop b xs) k v
drop-splice zero k v xs h = let start : 0 + k ≡ k = omega arith in rw start refl
drop-splice (suc b) k v [] h = absurd (omega arith)
drop-splice (suc b) k v (x ∷ xs) h =
    let at : suc b + k ≡ suc (b + k) = omega arith in
    let next : suc (b + k) + length v ≡ suc (b + k + length v) = omega arith in
    rw (at, next) (drop-splice b k v xs (omega arith))

read_slice_lem :
    (xs : List ℕ) (b n : ℕ) → b + n ≤ length xs → read_slice xs b n ≡ some (take n (drop b xs))
unfolding read_slice
read_slice_lem xs b n h = ground arith

-- Reading around a write gives what was read before, with the write made to it.
pub read_slice-write_slice :
    (xs : List ℕ) (b k n : ℕ) (v ys : List ℕ)
    → k + length v ≤ n
    → b + n ≤ length xs
    → write_slice xs (b + k) v ≡ some ys
    → read_slice ys b n ≡ (read_slice xs b n >>= λ part. write_slice part k v)
read_slice-write_slice xs b k n v ys h h' e =
    let (bound, shape) = write_slice_bound xs (b + k) v ys e in
    let rest = length-drop b xs (omega (arith, h')) in
    let part = length-take n (drop b xs) (omega (arith, rest, h')) in
    read_slice_lem ys b n (omega (arith, h', length-write_slice xs (b + k) v ys e))
    ∙ ap some (
        ap (λ l. take n (drop b l)) shape
        ∙ ap (take n) (drop-splice b k v xs bound)
        ∙ take-splice k v (drop b xs) n h (omega (arith, rest, h, h')))
    ∙ sym (write_slice_in_range (take n (drop b xs)) k v (omega (arith, part, h)))
    ∙ ap (λ m. m >>= λ l. write_slice l k v) (sym (read_slice_lem xs b n h'))

take-take : (k m n : ℕ) (xs : List ℕ) → k + m ≤ n → take m (drop k (take n xs)) ≡ take m (drop k xs)
take-take zero zero n xs h = refl
take-take zero (suc m) zero xs h = absurd (omega arith)
take-take zero (suc m) (suc n) [] h = refl
take-take zero (suc m) (suc n) (x ∷ xs) h = ap (◌∷◌ x) (take-take zero m n xs (omega arith))
take-take (suc k) m zero xs h = absurd (omega arith)
take-take (suc k) m (suc n) [] h = refl
take-take (suc k) m (suc n) (x ∷ xs) h = take-take k m n xs (omega arith)

drop-drop : (b k : ℕ) (xs : List ℕ) → drop k (drop b xs) ≡ drop (b + k) xs
drop-drop zero k xs = let start : 0 + k ≡ k = omega arith in rw start refl
drop-drop (suc b) zero [] = let at : suc b + 0 ≡ suc (b + 0) = omega arith in rw at refl
drop-drop (suc b) (suc k) [] = let at : suc b + suc k ≡ suc (b + suc k) = omega arith in rw at refl
drop-drop (suc b) k (x ∷ xs) =
    let at : suc b + k ≡ suc (b + k) = omega arith in rw at (drop-drop b k xs)

-- Reading inside a part that has been read.
pub read_slice-read_slice :
    (xs : List ℕ) (b k m n : ℕ)
    → k + m ≤ n
    → b + n ≤ length xs
    → (read_slice xs b n >>= λ part. read_slice part k m) ≡ read_slice xs (b + k) m
read_slice-read_slice xs b k m n h h' =
    let rest = length-drop b xs (omega (arith, h')) in
    let part = length-take n (drop b xs) (omega (arith, rest, h')) in
    ap (λ o. o >>= λ l. read_slice l k m) (read_slice_lem xs b n h')
    ∙ read_slice_lem (take n (drop b xs)) k m (omega (arith, part, h))
    ∙ ap some (take-take k m n (drop b xs) h ∙ ap (take m) (drop-drop b k xs))
    ∙ sym (read_slice_lem xs (b + k) m (omega (arith, h, h')))
