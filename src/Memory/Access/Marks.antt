-- ===== src/Memory/Access/Marks.antt =====
-- A value that MOV_OUT stored is what MOV_IN reads; a page that is not loaded stops MOV_OUT.
use geck.Prelude.{
  ℕ, zero, suc, ◌/◌, ◌<◌, ◌≡◌, refl, inl, inr, ℤ, pos, eqb_ℤ, eqb_ℤ_iff, List, [], ◌∷◌, true, ◌&&◌,
  Bool-cases, none, some, length, get_elem?, list_get, set, length-set, get_elem?_of_lt, All,
  Option-cases, subst, arith,
}
use geck.Shared.{Pcb, Segment}
use geck.Memory.{MemoryConfig, PageRow, PageTable, ClockRow, ClockStruct, Memory}
use geck.Memory.Tables.{get_page_table_by_index}
use geck.Memory.Access.{find_loaded, save_value_in_memory, mark_used}

-- The row is present in the frame.
abbrev pub Holds : PageRow → ℤ → Type 0
Holds row frame = (row.frame_number ≡ frame) × (row.presence ≡ true)

Holds-test :
    (row : PageRow) (frame : ℤ)
    → Holds row frame
    → (eqb_ℤ row.frame_number frame && row.presence) ≡ true
Holds-test row frame (f, p) = ground (arith, eqb_ℤ_iff row.frame_number frame)

test-Holds :
    (row : PageRow) (frame : ℤ)
    → (eqb_ℤ row.frame_number frame && row.presence) ≡ true
    → Holds row frame
test-Holds row frame e = ground (arith, eqb_ℤ_iff row.frame_number frame)

-- The search finds a page of the frame, if the list has one.
pub find_loaded_lem :
    (rows : List PageRow) (frame : ℤ) (pages : List ℕ) (i page : ℕ) (row : PageRow)
    → All (λ p. p < length rows) pages
    → get_elem? pages i ≡ some page
    → get_elem? rows page ≡ some row
    → Holds row frame
    → (p : ℕ) × (r : PageRow) × (find_loaded rows frame pages ≡ some p)
      × (get_elem? rows p ≡ some r)
      × Holds r frame
unfolding find_loaded
find_loaded_lem rows frame [] i page row h e hr holds = absurd (cc)
find_loaded_lem rows frame (p ∷ pages) zero page row h e hr holds =
    let here : get_elem? rows p ≡ some row = subst (λ k. get_elem? rows k ≡ some row) (cc) hr in
    (p, row, rw (here, Holds-test row frame holds), here, holds)
find_loaded_lem rows frame (p ∷ pages) (suc i) page row h e hr holds =
    let (r, er) = get_elem?_of_lt rows p h.0 in
    elim (Bool-cases (eqb_ℤ r.frame_number frame && r.presence)) [
      | inl t ↦ (p, r, rw (er, t), er, test-Holds r frame t)
      | inr t ↦ rw (er, t) (find_loaded_lem rows frame pages i page row h.1 e hr holds)
    ]

-- Past its end the search reads through NULL, if no page of the list is present in the frame.
find_loaded-none :
    (rows : List PageRow) (frame : ℤ) (pages : List ℕ)
    → ((i page : ℕ) (row : PageRow)
        → get_elem? pages i ≡ some page
        → get_elem? rows page ≡ some row
        → ¬ Holds row frame)
    → find_loaded rows frame pages ≡ none
unfolding find_loaded
find_loaded-none rows frame [] h = refl
find_loaded-none rows frame (p ∷ pages) h = elim (Option-cases (get_elem? rows p)) [
  | inl e ↦ rw e
  | inr (r, e) ↦ elim (Bool-cases (eqb_ℤ r.frame_number frame && r.presence)) [
    | inl t ↦ absurd (h 0 p r refl e (test-Holds r frame t))
    | inr t ↦ rw (e, t) (find_loaded-none rows frame pages (λ i page row. h (suc i) page row))
  ]
]

-- `save_value_in_memory` never reaches its error branch: where the table has no page present in the
-- frame of the address, the loop reads through NULL.
pub save_value_unloaded :
    (c : MemoryConfig) (n value : ℕ) (index : ℤ) (s : Memory) (table : PageTable)
    → get_page_table_by_index index s ≡ some table
    → ((i page : ℕ) (row : PageRow)
        → get_elem? table.pages_list i ≡ some page
        → get_elem? s.rows page ≡ some row
        → ¬ Holds row (pos (n / c.tam_pagina)))
    → save_value_in_memory c (pos n) value index s ≡ none
unfolding save_value_in_memory
save_value_unloaded c n value index s table ht h =
    rw (ht, find_loaded-none s.rows (pos (n / c.tam_pagina)) table.pages_list h)

-- The marks of `update_page_use` are made where every entry's page is a row.
pub mark_used_lem :
    (frame : ℤ) (frames : List ClockRow) (rows : List PageRow)
    → All (λ (e : ClockRow). e.page < length rows) frames
    → (rows' : List PageRow) × (mark_used frame frames rows ≡ some rows')
unfolding mark_used
mark_used_lem frame [] rows h = (rows, refl)
mark_used_lem frame (e ∷ frames) rows h =
    let (r, er) = get_elem?_of_lt rows e.page h.0 in
    let marked = record r { use_bit = true } in
    elim (Bool-cases (eqb_ℤ frame e.frame_number_in_memory)) [
      | inl t ↦
          rw (t, er)
            (mark_used_lem frame frames (set rows e.page marked)
              (rw (length-set rows e.page marked) h.1))
      | inr t ↦ rw t (mark_used_lem frame frames rows h.1)
    ]

-- A page in memory, found by its segment and its number in the state `s`.
pub record IsPresent (c : MemoryConfig) (s : Memory) (pcb : Pcb) (segment_number page_number : ℤ)
    (frame : ℕ) : Type 0 where
  pub segment : Segment
  pub table : PageTable
  pub index : ℕ
  pub position : ℕ
  pub page : ℕ
  pub row : PageRow
  pub clock : ClockStruct
  pub segment_in : list_get pcb.segment_table segment_number ≡ some segment
  pub table_in : get_page_table_by_index segment.index_page s ≡ some table
  -- The table's id is its position, as `init_process_structures` numbers them.
  pub index_eq : segment.index_page ≡ pos index
  pub index_in : get_elem? s.all_page_tables index ≡ some table
  pub number_eq : page_number ≡ pos position
  pub page_in : get_elem? table.pages_list position ≡ some page
  pub row_in : get_elem? s.rows page ≡ some row
  pub holds : Holds row (pos frame)
  pub pages_in : All (λ p. p < length s.rows) table.pages_list
  pub clock_in : s.clock_structures pcb.process_id ≡ some clock
  pub entries_in : All (λ (e : ClockRow). e.page < length s.rows) clock.frames_in_memory
