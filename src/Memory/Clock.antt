-- ===== src/Memory/Clock.antt =====
-- The replacement algorithms of memoria/src/memoria.c. `list_get` past the end gives NULL, whose use
-- is a fault; each loop takes fuel, and `Clock.Halting` shows how much is enough.
pub mod Halting
pub mod Passes
pub mod Victim
use geck.Prelude.{
  ℕ, zero, suc, ◌+◌, ◌*◌, ◌%◌, ◌^◌, ℤ, pos, negsuc, eqb_ℤ, List, [], ◌∷◌, ◌++◌, Bool, true, false,
  not, ◌&&◌, Option, none, some, if◌then◌else◌, ◌==◌, length, get_elem?, set, ◌>>=◌, ◌>>◌,
}
use geck.Shared.Strings.{codes, strcmp_eq}
use geck.Memory.{MemoryConfig, PageRow, PageTable, ClockRow, ClockStruct, Memory, set_struct_clock}
use geck.Memory.Bitmap.{clean_bit}
use geck.Memory.Store.{read_frame, write_page_swap}

unfoldable pub move_to_next_pointer : MemoryConfig → ℕ → ℕ
move_to_next_pointer c clock_pointer =
    if clock_pointer + 1 == c.marcos_por_proceso then 0 else clock_pointer + 1

-- The page of an address, and the heap with that page changed.
abbrev pub put_row : ℕ → PageRow → Memory → Memory
put_row page row s = record s { rows = set s.rows page row }

-- A modified victim is written to its page of the swap file. Then its frame is free.
unfoldable pub replace_by_clock : MemoryConfig → ℕ → Memory → Option Memory
replace_by_clock c page s = do
  row ← get_elem? s.rows page
  s₁ ←
      (if row.modified
        then (do
          value ← read_frame c row.frame_number s
          write_page_swap c row.swap_position value s)
        else some s)
  bitmap ← clean_bit s₁.bitmap_memory row.frame_number
  some (record s₁ {
    rows = set s₁.rows page (record row { modified = false; presence = false });
    bitmap_memory = bitmap;
  })

-- What a search ends with: the entry of the victim, the pointer behind it, and the rows.
pub record Found : Type 0 where
  pub entry : ClockRow
  pub next : ℕ
  pub rows : List PageRow

abbrev pub without_use : PageRow → PageRow
without_use row = record row { use_bit = false }

-- The loop of `simple_clock`; the pointer is an `uint16_t`.
unfoldable pub simple_search : MemoryConfig → List ClockRow → ℕ → ℕ → List PageRow → Option Found
simple_search c frames zero clock_pointer rows = none
simple_search c frames (suc fuel) clock_pointer rows = do
  entry ← get_elem? frames clock_pointer
  row ← get_elem? rows entry.page
  let next = move_to_next_pointer c clock_pointer % 2 ^ 16
  let later = simple_search c frames fuel next (set rows entry.page (without_use row))
  if row.use_bit then later else some (record { entry = entry; next = next; rows = rows })

-- The victim leaves memory, and the clock keeps the pointer behind it.
unfoldable pub evict : MemoryConfig → ℤ → ClockStruct → Found → Memory → Option (ℤ × Memory)
evict c process_id clock found s = do
  s₁ ← replace_by_clock c found.entry.page (record s { rows = found.rows })
  some (
    found.entry.frame_number_in_memory,
    set_struct_clock process_id (record clock { pointer = found.next % 2 ^ 16 }) s₁,
  )

-- Without the log, for which `get_frame_data` writes two `int`s into the room of one.
unfoldable pub simple_clock : MemoryConfig → ℤ → Memory → Option (ℤ × Memory)
simple_clock c process_id s = do
  clock ← s.clock_structures process_id
  found ←
      simple_search c clock.frames_in_memory (suc (length clock.frames_in_memory)) clock.pointer
        s.rows
  evict c process_id clock found s

-- How one of the two inner loops of `modified_clock` ends: with a victim, or with the pointer back
-- where the clock's pointer stands.
pub data Pass : Type 0 where
  victim : Found → Pass
  around : ℕ → List PageRow → Pass

-- The first loop, which looks for use 0 and modified 0.
unfoldable pub clean_pass : MemoryConfig → List ClockRow → ℕ → ℕ → ℕ → List PageRow → Option Pass
clean_pass c frames start zero clock_pointer rows = none
clean_pass c frames start (suc fuel) clock_pointer rows = do
  entry ← get_elem? frames clock_pointer
  row ← get_elem? rows entry.page
  let next = move_to_next_pointer c clock_pointer
  let later = clean_pass c frames start fuel next rows
  if not row.use_bit && not row.modified
      then some (victim (record { entry = entry; next = next; rows = rows }))
      else if next == start
      then some (around next rows)
      else later

-- The second loop, which looks for use 0 and modified 1 and takes the use bits back.
unfoldable pub dirty_pass : MemoryConfig → List ClockRow → ℕ → ℕ → ℕ → List PageRow → Option Pass
dirty_pass c frames start zero clock_pointer rows = none
dirty_pass c frames start (suc fuel) clock_pointer rows = do
  entry ← get_elem? frames clock_pointer
  row ← get_elem? rows entry.page
  let next = move_to_next_pointer c clock_pointer
  let rows' = set rows entry.page (without_use row)
  let later = dirty_pass c frames start fuel next rows'
  if not row.use_bit && row.modified
      then some (victim (record { entry = entry; next = next; rows = rows }))
      else if next == start
      then some (around next rows')
      else later

-- The outer loop: a pass of each kind, again and again.
unfoldable pub modified_search :
    MemoryConfig → List ClockRow → ℕ → ℕ → ℕ → List PageRow → Option Found
modified_search c frames start zero clock_pointer rows = none
modified_search c frames start (suc fuel) clock_pointer rows = do
  first ← clean_pass c frames start (suc c.marcos_por_proceso) clock_pointer rows
  elim first [
    | victim found ↦ some found
    | around p rows₁ ↦ do
      second ← dirty_pass c frames start (suc c.marcos_por_proceso) p rows₁
      elim second [
        | victim found ↦ some found
        | around q rows₂ ↦ modified_search c frames start fuel q rows₂
      ]
  ]

unfoldable pub modified_clock : MemoryConfig → ℤ → Memory → Option (ℤ × Memory)
modified_clock c process_id s = do
  clock ← s.clock_structures process_id
  found ←
      modified_search c clock.frames_in_memory clock.pointer (suc (length clock.frames_in_memory))
        clock.pointer s.rows
  evict c process_id clock found s

unfoldable pub use_replacement_algorithm : MemoryConfig → ℤ → Memory → Option (ℤ × Memory)
use_replacement_algorithm c process_id s =
    if strcmp_eq c.algoritmo_reemplazo (codes "CLOCK-M")
    then modified_clock c process_id s
    else if strcmp_eq c.algoritmo_reemplazo (codes "CLOCK")
    then simple_clock c process_id s
    else some (negsuc 0, s)

-- The entry of the frame, if there is one, gets the page; else a new entry is put at the end.
unfoldable pub put_page : ℤ → ℕ → ℤ → List ClockRow → List ClockRow
put_page frame_number page frame_number_in_swap [] =
    record {
      frame_number_in_memory = frame_number;
      page = page;
      frame_number_in_swap = frame_number_in_swap;
    }
    ∷ []
put_page frame_number page frame_number_in_swap (entry ∷ rest) =
    if eqb_ℤ frame_number entry.frame_number_in_memory
    then record entry { page = page; frame_number_in_swap = frame_number_in_swap } ∷ rest
    else entry ∷ put_page frame_number page frame_number_in_swap rest

unfoldable pub add_page_to_clock_structure : ℤ → ℤ → ℕ → ℤ → Memory → Option Memory
add_page_to_clock_structure process_id frame_number page frame_number_in_swap s = do
  clock ← s.clock_structures process_id
  let frames = put_page frame_number page frame_number_in_swap clock.frames_in_memory
  some (set_struct_clock process_id (record clock { frames_in_memory = frames }) s)
