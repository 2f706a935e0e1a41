-- ===== src/Memory/Tables/Freed.antt =====
-- The end of a process in memoria/src/memoria.c: its pages are given back.
use geck.Prelude.{
  ℕ, ◌<◌, ◌≡◌, ◌⊎◌, inl, inr, refl, ◌∙◌, subst, pos, ltb, List, [], ◌∷◌, Bool, true, false, Option,
  some, length, get_elem?, list_get, set, length-set, get_elem?-set_self, get_elem?-set_ne, All,
  arith, ◌>>=◌,
}
use native.Mathlib.Decide.{ℕ_discrete}
use geck.Memory.{PageRow, Memory}
use geck.Memory.Bitmap.{clean_bit}
use geck.Memory.Tables.{free_pages}

-- A page whose place in the swap file is one of `swap` bits, and whose frame, when it is present, is one of
-- `frames` bits.
pub record IsOwned (rows : List PageRow) (swap frames : ℕ) (page : ℕ) : Type 0 where
  pub row : PageRow
  pub position : ℕ
  pub row_in : get_elem? rows page ≡ some row
  pub position_eq : row.swap_position ≡ pos position
  pub position_in : position < swap
  pub frame_in :
      (row.presence ≡ false)
      ⊎ ((row.presence ≡ true) × (frame : ℕ) × (row.frame_number ≡ pos frame) × (frame < frames))

-- The bit of a page's place in the swap file.
abbrev pub swap_bit : Memory → ℕ → Option Bool
swap_bit s page = get_elem? s.rows page >>= λ row. list_get s.bitmap_swap row.swap_position

clean_bit_in_range :
    (bits : List Bool) (i : ℕ) → i < length bits → clean_bit bits (pos i) ≡ some (set bits i false)
unfolding clean_bit
clean_bit_in_range bits i h =
    let inside : ltb i (length bits) ≡ true = ground arith in rw inside refl

clean_kept :
    (bits : List Bool) (i j : ℕ)
    → i < length bits
    → get_elem? bits j ≡ some false
    → get_elem? (set bits i false) j ≡ some false
clean_kept bits i j h clean = elim (ℕ_discrete i j) [
  | yes same ↦
      subst (λ k. get_elem? (set bits i false) k ≡ some false) same
        (get_elem?-set_self bits i false h)
  | no other ↦ get_elem?-set_ne bits i j false other ∙ clean
]

-- What freeing pages leaves.
record Freed (s : Memory) (pages : List ℕ) : Type 0 where
  after : Memory
  result : free_pages pages s ≡ some after
  rows_kept : after.rows ≡ s.rows
  clean : All (λ page. swap_bit after page ≡ some false) pages
  kept :
      (j : ℕ) → get_elem? s.bitmap_swap j ≡ some false → get_elem? after.bitmap_swap j ≡ some false

module _ (swap frames : ℕ) where
  free-Freed :
      (page : ℕ) (rest : List ℕ) (s : Memory) (memory : List Bool)
      → (h : IsOwned s.rows swap frames page) → length s.bitmap_swap ≡ swap
      → ((free_pages (page ∷ rest) s)
          ≡ free_pages rest (record s {
            bitmap_memory = memory;
            bitmap_swap = set s.bitmap_swap h.position false;
          }))
      → Freed
          (record s { bitmap_memory = memory; bitmap_swap = set s.bitmap_swap h.position false })
          rest
      → Freed s (page ∷ rest)
  free-Freed page rest s memory h swap_length first f =
      let inside : h.position < length s.bitmap_swap = omega (arith, h.position_in) in
      record {
        after = f.after;
        result = first ∙ f.result;
        rows_kept = f.rows_kept;
        clean = (
          rw (f.rows_kept, h.row_in, h.position_eq)
              (f.kept h.position (get_elem?-set_self s.bitmap_swap h.position false inside)),
          f.clean,
        );
        kept = λ j clean. f.kept j (clean_kept s.bitmap_swap h.position j inside clean);
      }

  free_pages-Freed :
      (pages : List ℕ) (s : Memory)
      → length s.bitmap_swap ≡ swap
      → length s.bitmap_memory ≡ frames
      → All (IsOwned s.rows swap frames) pages
      → Freed s pages
  unfolding free_pages
  free_pages-Freed [] s a b h = record {
    after = s;
    result = refl;
    rows_kept = refl;
    clean = tt;
    kept = λ j clean. clean;
  }
  free_pages-Freed (page ∷ rest) s a b (h, more) =
      let cleaned = clean_bit_in_range s.bitmap_swap h.position (omega (arith, h.position_in)) in
      elim h.frame_in [
        | inl absent ↦
            free-Freed page rest s s.bitmap_memory h a
              (rw (h.row_in, absent, h.position_eq, cleaned) refl)
              (free_pages-Freed rest _ (length-set s.bitmap_swap h.position false ∙ a) b more)
        | inr (present, frame, frame_eq, frame_lt) ↦
            free-Freed page rest s (set s.bitmap_memory frame false) h a
              (rw
                (
                  h.row_in,
                  present,
                  frame_eq,
                  h.position_eq,
                  cleaned,
                  clean_bit_in_range s.bitmap_memory frame (omega arith),
                )
                refl)
              (free_pages-Freed rest _ (length-set s.bitmap_swap h.position false ∙ a)
                (length-set s.bitmap_memory frame false ∙ b) more)
      ]

-- Freeing pages that the process owns, of which the frames are within the memory's bitmap and the places
-- within that of the swap file, succeeds, keeps the rows, and leaves the place of each of the pages free.
pub free_pages_lem :
    (pages : List ℕ) (s : Memory)
    → All (IsOwned s.rows (length s.bitmap_swap) (length s.bitmap_memory)) pages
    → (after : Memory) × (free_pages pages s ≡ some after)
      × (after.rows ≡ s.rows)
      × All (λ page. swap_bit after page ≡ some false) pages
free_pages_lem pages s h =
    let f = free_pages-Freed (length s.bitmap_swap) (length s.bitmap_memory) pages s refl refl h in
    (f.after, f.result, f.rows_kept, f.clean)
