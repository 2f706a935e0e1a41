-- ===== src/Memory/Store/Slices.antt =====
-- What is read back from where something was written, and from anywhere else.
use geck.Prelude.{
  ℕ, zero, suc, ◌+◌, ◌-◌, ◌*◌, ◌≤◌, ◌≡◌, refl, sym, ap, ◌∙◌, ◌⊎◌, inl, inr, ℤ, pos, negsuc, IsU32,
  List, [], ◌∷◌, ◌++◌, append_assoc, some, length, length-append, take, drop, take-append,
  drop-append, arith, >>=-eq-some,
}
use geck.Shared.Wire.{word_bytes, read_uint32}
use geck.Memory.{MemoryConfig, Memory}
use geck.Memory.Store.{
  read_slice, write_slice, read_page_swap, write_page_swap, read_frame, write_frame,
  read_value_in_principal_memory, write_word,
}

pub length-take : (n : ℕ) (xs : List ℕ) → n ≤ length xs → length (take n xs) ≡ n
length-take zero xs h = refl
length-take (suc n) [] h = elim h [ ]
length-take (suc n) (x ∷ xs) h = ap suc (length-take n xs (omega arith))

pub length-drop : (n : ℕ) (xs : List ℕ) → n ≤ length xs → length (drop n xs) + n ≡ length xs
length-drop zero xs h = omega arith
length-drop (suc n) [] h = elim h [ ]
length-drop (suc n) (x ∷ xs) h = omega (arith, length-drop n xs)

-- A write in range succeeds.
pub write_slice_in_range :
    (xs : List ℕ) (offset : ℕ) (v : List ℕ)
    → offset + length v ≤ length xs
    → write_slice xs offset v ≡ some (take offset xs ++ (v ++ drop (offset + length v) xs))
unfolding write_slice
write_slice_in_range xs offset v h = ground arith

-- A write that succeeds was in range.
pub write_slice_bound :
    (xs : List ℕ) (offset : ℕ) (v ys : List ℕ)
    → write_slice xs offset v ≡ some ys
    → (offset + length v ≤ length xs) × (ys ≡ take offset xs ++ (v ++ drop (offset + length v) xs))
unfolding write_slice
write_slice_bound xs offset v ys e = ground arith

pub length-write_slice :
    (xs : List ℕ) (offset : ℕ) (v ys : List ℕ)
    → write_slice xs offset v ≡ some ys
    → length ys ≡ length xs
length-write_slice xs offset v ys e =
    let (bound, shape) = write_slice_bound xs offset v ys e in
    omega (
      arith,
      ap length shape,
      length-append (take offset xs) (v ++ drop (offset + length v) xs),
      length-append v (drop (offset + length v) xs),
      length-take offset xs,
      length-drop (offset + length v) xs,
    )

-- A read in range gives as many bytes as were asked for.
pub read_slice_in_range :
    (xs : List ℕ) (offset n : ℕ)
    → offset + n ≤ length xs
    → (v : List ℕ) × (read_slice xs offset n ≡ some v) × (length v ≡ n)
unfolding read_slice
read_slice_in_range xs offset n h = (
  take n (drop offset xs),
  ground arith,
  omega (arith, length-take n (drop offset xs), length-drop offset xs),
)

drop_prefix : (n : ℕ) (xs ys : List ℕ) → length xs ≡ n → drop n (xs ++ ys) ≡ ys
drop_prefix n xs ys e = rw (← e) (drop-append xs ys)

-- What was written is read back.
pub read-write_slice :
    (xs : List ℕ) (offset : ℕ) (v ys : List ℕ)
    → write_slice xs offset v ≡ some ys
    → read_slice ys offset (length v) ≡ some v
unfolding read_slice
read-write_slice xs offset v ys e =
    let (bound, shape) = write_slice_bound xs offset v ys e in
    ground (
      arith,
      length-write_slice xs offset v ys e,
      drop_prefix offset (take offset xs) (v ++ drop (offset + length v) xs)
          (length-take offset xs (omega arith)),
      take-append v (drop (offset + length v) xs),
    )

take-drop_before :
    (o n offset : ℕ) (xs rest : List ℕ)
    → o + n ≤ offset
    → offset ≤ length xs
    → take n (drop o (take offset xs ++ rest)) ≡ take n (drop o xs)
take-drop_before o zero zero xs rest h k = refl
take-drop_before o (suc n) zero xs rest h k = absurd (omega arith)
take-drop_before o n (suc m) [] rest h k = elim k [ ]
take-drop_before zero zero (suc m) (x ∷ xs) rest h k = refl
take-drop_before zero (suc n) (suc m) (x ∷ xs) rest h k =
    ap (◌∷◌ x) (take-drop_before zero n m xs rest (omega arith) (omega arith))
take-drop_before (suc o) n (suc m) (x ∷ xs) rest h k =
    take-drop_before o n m xs rest (omega arith) (omega arith)

drop_nil : (n : ℕ) → drop {A = ℕ} n [] ≡ []
drop_nil zero = refl
drop_nil (suc n) = refl

drop_split : (p o : ℕ) (xs : List ℕ) → p ≤ o → drop o xs ≡ drop (o - p) (drop p xs)
drop_split zero o xs h = ap (λ (k : ℕ). drop k xs) (omega arith)
drop_split (suc p) zero xs h = elim h [ ]
drop_split (suc p) (suc o) [] h = sym (drop_nil (suc o - suc p))
drop_split (suc p) (suc o) (x ∷ xs) h =
    drop_split p o xs (omega arith) ∙ ap (λ (k : ℕ). drop k (drop p xs)) (omega arith)

-- Bytes outside the written part are as they were.
pub read-write_slice_ne :
    (xs : List ℕ) (offset : ℕ) (v ys : List ℕ) (o n : ℕ)
    → write_slice xs offset v ≡ some ys
    → (o + n ≤ offset) ⊎ (offset + length v ≤ o)
    → read_slice ys o n ≡ read_slice xs o n
unfolding read_slice
read-write_slice_ne xs offset v ys o n e (inl before) =
    let (bound, shape) = write_slice_bound xs offset v ys e in
    ground (
      arith,
      length-write_slice xs offset v ys e,
      take-drop_before o n offset xs (v ++ drop (offset + length v) xs) before (omega arith),
    )
read-write_slice_ne xs offset v ys o n e (inr after) =
    let (bound, shape) = write_slice_bound xs offset v ys e in
    let p = offset + length v in
    let front = take offset xs ++ v in
    let same : drop p ys ≡ drop p xs =
      rw (shape, ← append_assoc (take offset xs) v (drop p xs))
        (drop_prefix p front (drop p xs)
          (omega (arith, length-append (take offset xs) v, length-take offset xs))) in
    rw (drop_split p o ys after, drop_split p o xs after, same, length-write_slice xs offset v ys e)

-- A page that was written to the swap file is what is read from its position.
pub read-write_page_swap :
    (c : MemoryConfig) (position : ℤ) (v : List ℕ) (s t : Memory)
    → length v ≡ c.tam_pagina
    → write_page_swap c position v s ≡ some t
    → read_page_swap c position t ≡ some v
unfolding read_page_swap write_page_swap
read-write_page_swap c (negsuc n) v s t h e = absurd (cc)
read-write_page_swap c (pos n) v s t h e =
    let (file, written, e') = >>=-eq-some (write_slice s.swap_file (n * c.tam_pagina) v) _ e in
    ground (arith, read-write_slice s.swap_file (n * c.tam_pagina) v file written)

pub read-write_frame :
    (c : MemoryConfig) (frame : ℤ) (v : List ℕ) (s t : Memory)
    → length v ≡ c.tam_pagina
    → write_frame c frame v s ≡ some t
    → read_frame c frame t ≡ some v
unfolding read_frame write_frame
read-write_frame c (negsuc n) v s t h e = absurd (cc)
read-write_frame c (pos n) v s t h e =
    let (file, written, e') =
      >>=-eq-some (write_slice s.principal_memory (n * c.tam_pagina) v) _ e in
    ground (arith, read-write_slice s.principal_memory (n * c.tam_pagina) v file written)

pub read_uint32_bytes : (w : ℕ) → IsU32 w → read_uint32 (word_bytes w) ≡ some (w, [])
unfolding read_uint32
read_uint32_bytes w h = ground arith

-- The word that MOV_OUT stored at an address is what MOV_IN reads there.
pub read_value-write_word :
    (address : ℤ) (w : ℕ) (s t : Memory)
    → IsU32 w
    → write_word address w s ≡ some t
    → read_value_in_principal_memory address t ≡ some w
unfolding read_value_in_principal_memory write_word
read_value-write_word (negsuc n) w s t h e = absurd (cc)
read_value-write_word (pos n) w s t h e =
    let (bytes, written, e') = >>=-eq-some (write_slice s.principal_memory n (word_bytes w)) _ e in
    ground (
      arith,
      read-write_slice s.principal_memory n (word_bytes w) bytes written,
      read_uint32_bytes w h,
    )

-- Each of these in range.
pub read_page_swap_in_range :
    (c : MemoryConfig) (n : ℕ) (s : Memory)
    → n * c.tam_pagina + c.tam_pagina ≤ length s.swap_file
    → (v : List ℕ) × (read_page_swap c (pos n) s ≡ some v) × (length v ≡ c.tam_pagina)
unfolding read_page_swap
read_page_swap_in_range c n s h = read_slice_in_range s.swap_file (n * c.tam_pagina) c.tam_pagina h

pub write_frame_in_range :
    (c : MemoryConfig) (n : ℕ) (v : List ℕ) (s : Memory)
    → length v ≡ c.tam_pagina
    → n * c.tam_pagina + c.tam_pagina ≤ length s.principal_memory
    → (bytes : List ℕ) × (write_frame c (pos n) v s ≡ some (record s { principal_memory = bytes }))
unfolding write_frame
write_frame_in_range c n v s l h =
    let at = n * c.tam_pagina in
    (
      take at s.principal_memory ++ (v ++ drop (at + length v) s.principal_memory),
      rw (write_slice_in_range s.principal_memory (n * c.tam_pagina) v (omega arith)),
    )
