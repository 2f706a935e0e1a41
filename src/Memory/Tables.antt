-- ===== src/Memory/Tables.antt =====
-- The page tables of memoria/src/memoria.c: how a process's tables are built, searched and freed.
pub mod Build
pub mod Freed
use geck.Prelude.{
  negated, ℕ, zero, suc, ◌+◌, ◌-◌, ◌/◌, ◌%◌, ◌^◌, ℤ, pos, negsuc, eqb_ℤ, List, [], ◌∷◌, ◌++◌, Bool,
  true, false, Option, none, some, if◌then◌else◌, ◌==◌, length, get_elem?, list_get, ◌>>=◌, ◌>>◌,
}
use geck.Shared.{Pcb, Segment}
use geck.Memory.{MemoryConfig, PageRow, PageTable, ClockStruct, Memory, set_struct_clock}
use geck.Memory.Bitmap.{find_page_free, set_bit, clean_bit, create_bitmap}

-- The division of C rounds towards zero, and the remainder has the sign of the size.
unfoldable pub calculate_frames_of_segment : MemoryConfig → ℤ → ℤ
calculate_frames_of_segment c (pos n) =
    pos (if n % c.tam_pagina == 0 then n / c.tam_pagina else n / c.tam_pagina + 1)
calculate_frames_of_segment c (negsuc n) =
    let quotient = suc n / c.tam_pagina in
    if suc n % c.tam_pagina == 0
    then negated quotient
    else if quotient == 0
    then pos 1
    else negated (quotient - 1)

-- One round of the loop of `builder_page_table`: a page of the swap file, and a new row. With no
-- free page `find_page_free` gives -1, and that bit is set all the same.
unfoldable pub build_row : MemoryConfig → Memory → Option (ℕ × Memory)
build_row c s = do
  position ← find_page_free c s.bitmap_swap
  bitmap ← set_bit s.bitmap_swap position
  let row : PageRow = record {
    frame_number = negsuc 0;
    swap_position = position;
    presence = false;
    use_bit = false;
    modified = false;
  }
  some (length s.rows, record s { rows = s.rows ++ (row ∷ []); bitmap_swap = bitmap })

unfoldable pub build_rows : MemoryConfig → ℕ → Memory → Option (List ℕ × Memory)
build_rows c zero s = some ([], s)
build_rows c (suc n) s = do
  (page, s₁) ← build_row c s
  (pages, s₂) ← build_rows c n s₁
  some (page ∷ pages, s₂)

-- The rounds of a loop that counts up to an `int`.
abbrev pub rounds : ℤ → ℕ
rounds (pos n) = n
rounds (negsuc n) = 0

unfoldable pub builder_page_table : MemoryConfig → ℤ → ℤ → ℤ → Memory → Option (PageTable × Memory)
builder_page_table c table_page_id size_of_segment segment s = do
  (pages, s₁) ← build_rows c (rounds (calculate_frames_of_segment c size_of_segment)) s
  some (record { id = table_page_id; pages_list = pages; segment_num = segment }, s₁)

-- The conversion of an `int` to `uint16_t`.
abbrev pub uint16 : ℤ → ℕ
uint16 (pos n) = n % 2 ^ 16
uint16 (negsuc n) = 2 ^ 16 - 1 - n % 2 ^ 16

unfoldable pub create_clock_structure : ℤ → Memory → Memory
create_clock_structure process_id =
    set_struct_clock process_id
      (record { process_id = uint16 process_id; frames_in_memory = []; pointer = 0 })

-- The loop of `init_process_structures` from the segment `i` on.
unfoldable pub init_segments :
    MemoryConfig → ℕ → List Segment → Memory → Option (List Segment × Memory)
init_segments c i [] s = some ([], s)
init_segments c i (segment ∷ rest) s = do
  let id = pos s.page_tables_counter
  (table, s₁) ← builder_page_table c id segment.size (pos i) s
  let s₂ : Memory = record s₁ {
    page_tables_counter = suc s₁.page_tables_counter;
    all_page_tables = s₁.all_page_tables ++ (table ∷ []);
  }
  (segments, s₃) ← init_segments c (suc i) rest s₂
  some (record segment { index_page = id } ∷ segments, s₃)

unfoldable pub init_process_structures : MemoryConfig → Pcb → Memory → Option (Pcb × Memory)
init_process_structures c pcb s = do
  (segments, s₁) ← init_segments c 0 pcb.segment_table (create_clock_structure pcb.process_id s)
  some (record pcb { segment_table = segments }, s₁)

-- The loop of `get_page_table_by_index`; `none` is its NULL.
unfoldable pub find_table : ℤ → List PageTable → Option PageTable
find_table index [] = none
find_table index (table ∷ rest) = if eqb_ℤ index table.id then some table else find_table index rest

unfoldable pub get_page_table_by_index : ℤ → Memory → Option PageTable
get_page_table_by_index index s = find_table index s.all_page_tables

-- The row of a page: its address, and what it holds.
unfoldable pub get_row : PageTable → ℤ → Memory → Option (ℕ × PageRow)
get_row table page_number s = do
  page ← list_get table.pages_list page_number
  row ← get_elem? s.rows page
  some (page, row)

-- The rest of `get_frame_number_RAM`, behind the search for the table.
unfoldable pub frame_in_table : Option PageTable → ℤ → Memory → Option ℤ
frame_in_table none page_number s = some (negsuc 0)
frame_in_table (some table) page_number s = do
  (page, row) ← get_row table page_number s
  some (if row.presence then row.frame_number else negsuc 0)

-- -1 where the page is not present, and where the table is not found.
unfoldable pub get_frame_number_ram : Pcb → ℤ → ℤ → Memory → Option ℤ
unfolding frame_in_table
get_frame_number_ram pcb page_number segment_number s = do
  segment ← list_get pcb.segment_table segment_number
  frame_in_table (get_page_table_by_index segment.index_page s) page_number s

-- The inner loop of `delete_process`.
unfoldable pub free_pages : List ℕ → Memory → Option Memory
free_pages [] s = some s
free_pages (page ∷ rest) s = do
  row ← get_elem? s.rows page
  memory ←
      (if row.presence then clean_bit s.bitmap_memory row.frame_number else some s.bitmap_memory)
  swap ← clean_bit s.bitmap_swap row.swap_position
  free_pages rest (record s { bitmap_memory = memory; bitmap_swap = swap })

unfoldable pub free_segments : List Segment → Memory → Option Memory
free_segments [] s = some s
free_segments (segment ∷ rest) s = do
  table ← get_page_table_by_index segment.index_page s
  s₁ ← free_pages table.pages_list s
  free_segments rest s₁

-- The clock structure, the tables and the rows stay.
unfoldable pub delete_process : Pcb → Memory → Option Memory
delete_process pcb s = free_segments pcb.segment_table s

-- The globals after `init_global_lists` and `init_principal_memory_and_swap_file`. What `malloc`
-- returns and what `create_swap` copies from the stack are given.
unfoldable pub init_memory : MemoryConfig → List ℕ → List ℕ → Memory
init_memory c principal_memory swap_file = record {
  rows = [];
  all_page_tables = [];
  page_tables_counter = 0;
  clock_structures = λ pid. none;
  principal_memory = principal_memory;
  swap_file = swap_file;
  bitmap_swap = create_bitmap (c.tamanio_swap / c.tam_pagina / 8);
  bitmap_memory = create_bitmap (c.tam_memoria / c.tam_pagina / 8);
}
