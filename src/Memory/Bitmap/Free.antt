-- ===== src/Memory/Bitmap/Free.antt =====
-- What `find_page_free` finds.
use geck.Prelude.{
  ℕ, zero, suc, ◌+◌, ◌/◌, ◌≤◌, ◌<◌, ◌≡◌, refl, ◌⊎◌, inl, inr, ℤ, pos, negsuc, List, [], ◌∷◌, Bool,
  true, false, Option, none, some, length, get_elem?, set, if◌then◌else◌, All, arith, ap, ◌∙◌,
  subst,
}
use geck.Memory.{MemoryConfig}
use geck.Memory.Bitmap.{find_from, find_page_free}

-- The first `n` bits are set.
abbrev pub AllSet : ℕ → List Bool → Type 0
AllSet n bits = (k : ℕ) → k < n → get_elem? bits k ≡ some true

-- The bit `j` is the first clean one.
pub record IsFirstFree (bits : List Bool) (j : ℕ) : Type 0 where
  pub clean : get_elem? bits j ≡ some false
  pub first : AllSet j bits

AllSet-cons : (n : ℕ) (bits : List Bool) → AllSet n bits → AllSet (suc n) (true ∷ bits)
AllSet-cons n bits h zero lt = refl
AllSet-cons n bits h (suc k) lt = h k (omega arith)

-- How a search over `n` bits ends, its indices counted from `i`.
abbrev FreeOrFull : ℕ → ℕ → List Bool → Option ℤ → Type 0
FreeOrFull n i bits r =
    ((j : ℕ) × (j < n) × IsFirstFree bits j × (r ≡ some (pos (i + j))))
    ⊎ (AllSet n bits × (r ≡ some (negsuc 0)))

find_from-FreeOrFull :
    (n i : ℕ) (bits : List Bool) → n ≤ length bits → FreeOrFull n i bits (find_from n i bits)
unfolding find_from
find_from-FreeOrFull zero i bits h = inr (λ k lt. elim lt [ ], refl)
find_from-FreeOrFull (suc n) i [] h = elim h [ ]
find_from-FreeOrFull (suc n) i (false ∷ bits) h = inl (
  0,
  omega arith,
  record { clean = refl; first = λ k lt. elim lt [ ] },
  ap (λ (m : ℕ). some (pos m)) (omega arith),
)
find_from-FreeOrFull (suc n) i (true ∷ bits) h =
    elim (find_from-FreeOrFull n (suc i) bits (omega arith)) [
      | inl (j, lt, free, e) ↦ inl (
        suc j,
        omega arith,
        record { clean = free.clean; first = AllSet-cons j bits free.first },
        e ∙ ap (λ (m : ℕ). some (pos m)) (omega arith),
      )
      | inr (full, e) ↦ inr (AllSet-cons n bits full, e)
    ]

-- On a bitmap that has a bit for every page of the swap file, the result is the first clean bit
-- among those of the pages, or -1 with all of them set.
pub find_page_free_lem :
    (c : MemoryConfig) (bits : List Bool)
    → c.tamanio_swap / c.tam_pagina ≤ length bits
    → ((j : ℕ) × (j < c.tamanio_swap / c.tam_pagina)
        × IsFirstFree bits j
        × (find_page_free c bits ≡ some (pos j)))
      ⊎ (AllSet (c.tamanio_swap / c.tam_pagina) bits × (find_page_free c bits ≡ some (negsuc 0)))
unfolding find_page_free
find_page_free_lem c bits h = elim (find_from-FreeOrFull _ 0 bits h) [
  | inl (j, lt, free, e) ↦ inl (j, lt, free, e ∙ ap (λ (m : ℕ). some (pos m)) (omega arith))
  | inr r ↦ inr r
]

find_from_clean :
    (n i : ℕ) (bits : List Bool) (m : ℕ)
    → find_from n i bits ≡ some (pos m)
    → (j : ℕ) × (m ≡ i + j) × (get_elem? bits j ≡ some false)
unfolding find_from
find_from_clean zero i bits m e = absurd (cc)
find_from_clean (suc n) i [] m e = absurd (cc)
find_from_clean (suc n) i (false ∷ bits) m e = (0, ground arith, refl)
find_from_clean (suc n) i (true ∷ bits) m e =
    let (j, here, clean) = find_from_clean n (suc i) bits m e in (suc j, omega arith, clean)

-- A bit that is found is clean.
pub find_page_free_clean :
    (c : MemoryConfig) (bits : List Bool) (m : ℕ)
    → find_page_free c bits ≡ some (pos m)
    → get_elem? bits m ≡ some false
unfolding find_page_free
find_page_free_clean c bits m e =
    let (j, here, clean) = find_from_clean _ 0 bits m e in
    subst (λ k. get_elem? bits k ≡ some false) (omega arith) clean

find_from_overrun :
    (n i : ℕ) (bits : List Bool)
    → All (λ b. b ≡ true) bits
    → length bits < n
    → find_from n i bits ≡ none
unfolding find_from
find_from_overrun zero i bits full h = elim h [ ]
find_from_overrun (suc n) i [] full h = refl
find_from_overrun (suc n) i (true ∷ bits) full h =
    find_from_overrun n (suc i) bits full.1 (omega arith)
find_from_overrun (suc n) i (false ∷ bits) full h = absurd (cc (full.0))

-- The search is bounded by the pages of the swap file on the bitmap of the memory too: where the
-- swap file has more pages than the bitmap has bits, and all bits are set, it reads past the end.
pub find_page_free_overrun :
    (c : MemoryConfig) (bits : List Bool)
    → All (λ b. b ≡ true) bits
    → length bits < c.tamanio_swap / c.tam_pagina
    → find_page_free c bits ≡ none
unfolding find_page_free
find_page_free_overrun c bits full h = find_from_overrun _ 0 bits full h

-- How many of the first `n` bits are clean.
unfoldable pub clean_count : ℕ → List Bool → ℕ
clean_count zero bits = 0
clean_count (suc n) [] = 0
clean_count (suc n) (b ∷ bits) = (if b then 0 else 1) + clean_count n bits

find_from_count :
    (n i : ℕ) (bits : List Bool)
    → 0 < clean_count n bits
    → (j : ℕ) × (find_from n i bits ≡ some (pos (i + j)))
      × (get_elem? bits j ≡ some false)
      × (clean_count n (set bits j true) + 1 ≡ clean_count n bits)
unfolding find_from clean_count
find_from_count zero i bits h = absurd (omega arith)
find_from_count (suc n) i [] h = absurd (omega arith)
find_from_count (suc n) i (false ∷ bits) h =
    (0, ap (λ (m : ℕ). some (pos m)) (omega arith), refl, omega arith)
find_from_count (suc n) i (true ∷ bits) h =
    let (j, e, clean, count) = find_from_count n (suc i) bits (omega (arith, h)) in
    (suc j, e ∙ ap (λ (m : ℕ). some (pos m)) (omega arith), clean, omega (arith, count))

-- The clean bits among those of the pages of the swap file.
abbrev pub free_in : MemoryConfig → List Bool → ℕ
free_in c bits = clean_count (c.tamanio_swap / c.tam_pagina) bits

-- With a clean bit among them the search finds one, and setting it leaves one fewer.
pub find_page_free_count :
    (c : MemoryConfig) (bits : List Bool)
    → 0 < free_in c bits
    → (j : ℕ) × (find_page_free c bits ≡ some (pos j))
      × (get_elem? bits j ≡ some false)
      × (free_in c (set bits j true) + 1 ≡ free_in c bits)
unfolding find_page_free
find_page_free_count c bits h =
    let (j, e, clean, count) = find_from_count _ 0 bits h in
    (j, e ∙ ap (λ (m : ℕ). some (pos m)) (omega arith), clean, count)
