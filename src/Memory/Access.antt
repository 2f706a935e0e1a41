-- ===== src/Memory/Access.antt =====
-- MOV_IN and MOV_OUT of memoria/src/memoria.c: what they read, write and mark.
pub mod Marks
use geck.Prelude.{
  ℕ, suc, ◌/◌, ℤ, pos, negsuc, eqb_ℤ, List, [], ◌∷◌, Bool, true, ◌&&◌, Option, none, some,
  if◌then◌else◌, get_elem?, list_get, set, ◌>>=◌, ◌>>◌,
}
use geck.Shared.{Pcb}
use geck.Memory.{MemoryConfig, PageRow, PageTable, ClockRow, Memory}
use geck.Memory.Store.{natural, write_word}
use geck.Memory.Tables.{get_page_table_by_index, get_row}

-- The `do … while` of `save_value_in_memory`: the first page that is present in the frame. Past the
-- last page `list_get` gives NULL, and the test of the loop reads through it.
unfoldable pub find_loaded : List PageRow → ℤ → List ℕ → Option ℕ
find_loaded rows frame [] = none
find_loaded rows frame (page ∷ rest) = do
  row ← get_elem? rows page
  if eqb_ℤ row.frame_number frame && row.presence then some page else find_loaded rows frame rest

-- `list_replace`, which leaves the list alone at an index out of range.
abbrev pub list_replace {ℓ} : {A : Type ℓ} → List A → ℤ → A → List A
list_replace xs (pos i) a = set xs i a
list_replace xs (negsuc i) a = xs

unfoldable pub save_value_in_memory : MemoryConfig → ℤ → ℕ → ℤ → Memory → Option Memory
save_value_in_memory c physical_address value segment_index s = do
  n ← natural physical_address
  table ← get_page_table_by_index segment_index s
  page ← find_loaded s.rows (pos (n / c.tam_pagina)) table.pages_list
  row ← get_elem? s.rows page
  s₁ ← write_word physical_address value s
  some (record s₁ {
    rows = set s₁.rows page (record row { modified = true });
    all_page_tables = list_replace s₁.all_page_tables segment_index table;
  })

-- The loop of `update_page_use`: every entry of the frame marks its page as used.
unfoldable pub mark_used : ℤ → List ClockRow → List PageRow → Option (List PageRow)
mark_used frame_number [] rows = some rows
mark_used frame_number (entry ∷ rest) rows = do
  rows' ←
      (if eqb_ℤ frame_number entry.frame_number_in_memory
        then (do
          row ← get_elem? rows entry.page
          some (set rows entry.page (record row { use_bit = true })))
        else some rows)
  mark_used frame_number rest rows'

unfoldable pub update_page_use : Pcb → ℤ → ℤ → Memory → Option Memory
update_page_use pcb segment_number page_number s = do
  segment ← list_get pcb.segment_table segment_number
  table ← get_page_table_by_index segment.index_page s
  (page, row) ← get_row table page_number s
  clock ← s.clock_structures pcb.process_id
  rows ← mark_used row.frame_number clock.frames_in_memory s.rows
  some (record s { rows = rows })
