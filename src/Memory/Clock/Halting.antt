-- ===== src/Memory/Clock/Halting.antt =====
-- Every search of the clock ends with a victim: each round that finds none takes a use bit back.
use geck.Prelude.{
  ◌≢◌, ℕ, zero, suc, ◌+◌, ◌*◌, ◌%◌, ◌^◌, ◌≤◌, ◌<◌, ◌≡◌, refl, inl, inr, pos, sym, subst, List, [],
  ◌∷◌, Bool, true, false, Bool-cases, some, length, get_elem?, set, length-set, get_elem?-set_self,
  get_elem?-set_ne, get_elem?-lt, get_elem?_of_lt, All, All_get, arith, ap, ◌∙◌,
}
use native.Mathlib.Decide.{ℕ_discrete}
use geck.Memory.{MemoryConfig, PageRow, ClockRow, Memory}
use geck.Memory.Store.{read_page_swap, read_frame}
use geck.Memory.Clock.{Found, without_use, move_to_next_pointer, simple_search}

-- The use bit of a page; an address that is no row has none.
unfoldable pub page_use : List PageRow → ℕ → Bool
page_use [] page = false
page_use (row ∷ rows) zero = row.use_bit
page_use (row ∷ rows) (suc page) = page_use rows page

abbrev pub use_of : List PageRow → ClockRow → Bool
use_of rows entry = page_use rows entry.page

pub page_use_row :
    (rows : List PageRow) (page : ℕ) (row : PageRow)
    → get_elem? rows page ≡ some row
    → page_use rows page ≡ row.use_bit
unfolding page_use
page_use_row [] page row e = absurd (cc)
page_use_row (x ∷ rows) zero row e = ground arith
page_use_row (x ∷ rows) (suc page) row e = page_use_row rows page row e

pub page_use-clear_self :
    (rows : List PageRow) (page : ℕ) (row : PageRow)
    → page_use (set rows page (without_use row)) page ≡ false
unfolding page_use
page_use-clear_self [] page row = refl
page_use-clear_self (x ∷ rows) zero row = refl
page_use-clear_self (x ∷ rows) (suc page) row = page_use-clear_self rows page row

pub page_use-clear_ne :
    (rows : List PageRow) (page other : ℕ) (row : PageRow)
    → page ≢ other
    → page_use (set rows page (without_use row)) other ≡ page_use rows other
unfolding page_use
page_use-clear_ne [] page other row h = refl
page_use-clear_ne (x ∷ rows) zero zero row h = absurd (h refl)
page_use-clear_ne (x ∷ rows) zero (suc other) row h = refl
page_use-clear_ne (x ∷ rows) (suc page) zero row h = refl
page_use-clear_ne (x ∷ rows) (suc page) (suc other) row h =
    page_use-clear_ne rows page other row (λ e. h (ap suc e))

abbrev pub bit_value : Bool → ℕ
bit_value true = 1
bit_value false = 0

-- How many entries have a page in use.
unfoldable pub use_count : List PageRow → List ClockRow → ℕ
use_count rows [] = 0
use_count rows (entry ∷ frames) = bit_value (use_of rows entry) + use_count rows frames

-- A page in memory, as the entry of its clock and the memory `s` have it: but for the use bit it is
-- a row of `s`, its frame and its page of the swap file are in range, and unless it is modified the
-- two hold the same bytes.
pub record IsSound (c : MemoryConfig) (s : Memory) (entry : ClockRow) (row : PageRow) : Type 0 where
  pub frame : ℕ
  pub position : ℕ
  pub frame_eq : row.frame_number ≡ pos frame
  pub entry_eq : entry.frame_number_in_memory ≡ pos frame
  pub position_eq : row.swap_position ≡ pos position
  pub bit_in : frame < length s.bitmap_memory
  pub frame_in : frame * c.tam_pagina + c.tam_pagina ≤ length s.principal_memory
  pub position_in : position * c.tam_pagina + c.tam_pagina ≤ length s.swap_file
  pub used_before : Bool
  pub origin : get_elem? s.rows entry.page ≡ some (record row { use_bit = used_before })
  pub coherent :
      row.modified ≡ false → read_page_swap c (pos position) s ≡ read_frame c (pos frame) s

-- No entry has the page.
abbrev pub IsNotOf : ℕ → List ClockRow → Type 0
IsNotOf page frames =
    (i : ℕ) (entry : ClockRow) → get_elem? frames i ≡ some entry → entry.page ≢ page

-- What a clock that has all its frames keeps: an entry for each frame of the process, whose pages
-- are sound rows of the heap `rows`, which elsewhere is that of `s`.
pub record IsClock (c : MemoryConfig) (s : Memory) (frames : List ClockRow) (rows : List PageRow)
    : Type 0 where
  pub full : length frames ≡ c.marcos_por_proceso
  pub some_frame : 0 < c.marcos_por_proceso
  pub small : c.marcos_por_proceso ≤ 2 ^ 16
  pub pages_in : All (λ (entry : ClockRow). entry.page < length rows) frames
  pub sound :
      (i : ℕ) (entry : ClockRow) (row : PageRow)
      → get_elem? frames i ≡ some entry
      → get_elem? rows entry.page ≡ some row
      → IsSound c s entry row
  pub others : (page : ℕ) → IsNotOf page frames → get_elem? rows page ≡ get_elem? s.rows page

pub use_count-le :
    (rows : List PageRow) (frames : List ClockRow) → use_count rows frames ≤ length frames
unfolding use_count
use_count-le rows [] = omega arith
use_count-le rows (e ∷ frames) = ground (arith, use_count-le rows frames)

use_of-clear :
    (rows : List PageRow) (page : ℕ) (row : PageRow) (e : ClockRow)
    → bit_value (use_of (set rows page (without_use row)) e) ≤ bit_value (use_of rows e)
use_of-clear rows page row e = elim (ℕ_discrete page e.page) [
  | yes same ↦ rw (← same, page_use-clear_self rows page row) (omega arith)
  | no other ↦ rw (page_use-clear_ne rows page e.page row other) (omega arith)
]

pub use_count-clear :
    (rows : List PageRow) (page : ℕ) (row : PageRow) (frames : List ClockRow)
    → use_count (set rows page (without_use row)) frames ≤ use_count rows frames
unfolding use_count
use_count-clear rows page row [] = omega arith
use_count-clear rows page row (e ∷ frames) =
    omega (arith, use_of-clear rows page row e, use_count-clear rows page row frames)

-- To take the use bit back of a page in use lowers the count.
pub use_count-clear_lt :
    (rows : List PageRow) (frames : List ClockRow) (i : ℕ) (e : ClockRow) (row : PageRow)
    → get_elem? frames i ≡ some e
    → get_elem? rows e.page ≡ some row
    → row.use_bit ≡ true
    → use_count (set rows e.page (without_use row)) frames < use_count rows frames
unfolding use_count
use_count-clear_lt rows [] i e row he hr u = absurd (cc)
use_count-clear_lt rows (x ∷ frames) zero e row he hr u = ground (
  arith,
  use_count-clear rows e.page row frames,
  page_use-clear_self rows e.page row,
  page_use_row rows e.page row hr,
)
use_count-clear_lt rows (x ∷ frames) (suc i) e row he hr u =
    omega (arith, use_of-clear rows e.page row x, use_count-clear_lt rows frames i e row he hr u)

pub move-lt :
    (c : MemoryConfig) (p : ℕ)
    → p < c.marcos_por_proceso
    → move_to_next_pointer c p < c.marcos_por_proceso
unfolding move_to_next_pointer
move-lt c p h = ground arith

-- An entry and its page at a pointer in range.
abbrev pub EntryAt : List ClockRow → List PageRow → ℕ → ClockRow → PageRow → Type 0
EntryAt frames rows p entry row =
    (get_elem? frames p ≡ some entry) × (get_elem? rows entry.page ≡ some row)

pub entry_at :
    (c : MemoryConfig) (s : Memory) (frames : List ClockRow) (rows : List PageRow) (p : ℕ)
    → IsClock c s frames rows
    → p < c.marcos_por_proceso
    → (entry : ClockRow) × (row : PageRow) × EntryAt frames rows p entry row
entry_at c s frames rows p w h =
    let (entry, he) = get_elem?_of_lt frames p (omega (arith, w.full)) in
    let (row, hr) = get_elem?_of_lt rows entry.page (All_get _ frames p entry w.pages_in he) in
    (entry, row, (he, hr))

IsSound-clear :
    (c : MemoryConfig) (s : Memory) (entry : ClockRow) (row : PageRow)
    → IsSound c s entry row
    → IsSound c s entry (without_use row)
IsSound-clear c s entry row h = record {
  frame = h.frame;
  position = h.position;
  frame_eq = h.frame_eq;
  entry_eq = h.entry_eq;
  position_eq = h.position_eq;
  bit_in = h.bit_in;
  frame_in = h.frame_in;
  position_in = h.position_in;
  used_before = h.used_before;
  origin = h.origin;
  coherent = h.coherent;
}

-- To take a use bit back keeps the clock.
pub IsClock-clear :
    (c : MemoryConfig) (s : Memory) (frames : List ClockRow) (rows : List PageRow) (p : ℕ)
    (at : ClockRow) (row : PageRow)
    → EntryAt frames rows p at row
    → IsClock c s frames rows
    → IsClock c s frames (set rows at.page (without_use row))
IsClock-clear c s frames rows p at row (ha, hr) w =
    let page = at.page in
    record {
      full = w.full;
      some_frame = w.some_frame;
      small = w.small;
      pages_in = rw (length-set rows page (without_use row)) w.pages_in;
      sound = λ i entry r he e. elim (ℕ_discrete page entry.page) [
        | yes same ↦
            let old : get_elem? rows entry.page ≡ some row =
              subst (λ k. get_elem? rows k ≡ some row) same hr in
            let cleared : get_elem? (set rows page (without_use row)) page
                ≡ some (without_use row) =
              get_elem?-set_self rows page (without_use row) (get_elem?-lt rows page row hr) in
            let new : some r ≡ some (without_use row) =
              sym e ∙ ap (get_elem? (set rows page (without_use row))) (sym same) ∙ cleared in
            subst (IsSound c s entry) (cc new)
              (IsSound-clear c s entry row (w.sound i entry row he old))
        | no other ↦
            w.sound i entry r he
              (sym (get_elem?-set_ne rows page entry.page (without_use row) other) ∙ e)
      ];
      others =
          λ k away. get_elem?-set_ne rows page k (without_use row) (away p at ha) ∙ w.others k away;
    }

-- What a search for a victim gives: an entry of the clock whose page is not in use.
pub record IsVictim (c : MemoryConfig) (s : Memory) (frames : List ClockRow) (found : Found)
    : Type 0 where
  pub index : ℕ
  pub entry_in : get_elem? frames index ≡ some found.entry
  pub next_in : found.next < c.marcos_por_proceso
  pub behind : found.next ≡ move_to_next_pointer c index
  pub row : PageRow
  pub row_in : get_elem? found.rows found.entry.page ≡ some row
  pub unused : row.use_bit ≡ false
  pub rows_kept : IsClock c s frames found.rows

-- Fuel above the number of pages in use is enough.
pub simple_search-IsVictim :
    (c : MemoryConfig) (s : Memory) (frames : List ClockRow) (fuel p : ℕ) (rows : List PageRow)
    → IsClock c s frames rows
    → p < c.marcos_por_proceso
    → use_count rows frames < fuel
    → (found : Found) × (simple_search c frames fuel p rows ≡ some found)
      × IsVictim c s frames found
unfolding simple_search
simple_search-IsVictim c s frames zero p rows w hp h = elim h [ ]
simple_search-IsVictim c s frames (suc fuel) p rows w hp h =
    let (entry, row, (he, hr)) = entry_at c s frames rows p w hp in
    let next_lt = move-lt c p hp in
    let small : move_to_next_pointer c p % 2 ^ 16 ≡ move_to_next_pointer c p =
      omega (arith, w.small) in
    elim (Bool-cases row.use_bit) [
      | inl u ↦
          rw (he, hr, u, small)
            (simple_search-IsVictim c s frames fuel (move_to_next_pointer c p)
              (set rows entry.page (without_use row))
              (IsClock-clear c s frames rows p entry row (he, hr) w) next_lt
              (omega (arith, use_count-clear_lt rows frames p entry row he hr u)))
      | inr u ↦
          rw (he, hr, u, small)
            (
              record { entry = entry; next = move_to_next_pointer c p; rows = rows },
              refl,
              record {
                index = p;
                entry_in = he;
                next_in = next_lt;
                behind = refl;
                row = row;
                row_in = hr;
                unused = u;
                rows_kept = w;
              },
            )
    ]
