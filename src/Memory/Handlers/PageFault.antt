-- ===== src/Memory/Handlers/PageFault.antt =====
-- A page fault is answered: the page is in memory, and the next request for its frame succeeds.
use geck.Prelude.{
  ℕ, ◌+◌, ◌*◌, ◌≤◌, ◌<◌, ◌≡◌, ◌≢◌, refl, sym, ap, ◌∙◌, ◌⊎◌, inl, inr, ℤ, pos, List, Bool, true,
  Bool-cases, some, length, get_elem?, list_get, set, get_elem?-set_self, get_elem?-lt, arith, ◌==◌,
  ==_iff,
}
use geck.Shared.{Pcb, Segment}
use geck.Shared.Strings.{codes, strcmp_eq}
use geck.Memory.{MemoryConfig, PageRow, PageTable, ClockRow, ClockStruct, Memory, set_struct_clock}
use geck.Memory.Bitmap.{set_bit, find_page_free}
use geck.Memory.Store.{read_page_swap, read_frame}
use geck.Memory.Store.Slices.{read_page_swap_in_range, write_frame_in_range, read-write_frame}
use geck.Memory.Tables.{get_page_table_by_index, get_row, get_frame_number_ram}
use geck.Memory.Clock.{put_page, add_page_to_clock_structure, use_replacement_algorithm}
use geck.Memory.Clock.Halting.{IsClock, IsNotOf}
use geck.Memory.Clock.Victim.{simple_clock-Replaces, modified_clock-Replaces, Replaces}
use geck.Memory.Handlers.{
  frame_request, frame_response, response_page_fault, loaded, load_page, choose_frame,
  solve_page_fault, attend_cpu,
}

-- The algorithm is one of the two that the module has.
abbrev pub IsAlgorithm : MemoryConfig → Type 0
IsAlgorithm c =
    (strcmp_eq c.algoritmo_reemplazo (codes "CLOCK-M") ≡ true)
    ⊎ (strcmp_eq c.algoritmo_reemplazo (codes "CLOCK") ≡ true)

-- The frame `n` and its bit are in range.
abbrev pub HasFrame : MemoryConfig → Memory → ℕ → Type 0
HasFrame c s n =
    (n < length s.bitmap_memory) × (n * c.tam_pagina + c.tam_pagina ≤ length s.principal_memory)

-- The process can have a frame: all of its frames hold sound pages and one of them can go, or it
-- has fewer than its number and the search finds a free one.
abbrev pub CanHaveFrame : MemoryConfig → Memory → ClockStruct → Type 0
CanHaveFrame c s clock =
    (IsClock c s clock.frames_in_memory s.rows
      × (clock.pointer < c.marcos_por_proceso)
      × IsAlgorithm c)
    ⊎ ((n : ℕ) × (length clock.frames_in_memory ≢ c.marcos_por_proceso)
        × (find_page_free c s.bitmap_memory ≡ some (pos n))
        × HasFrame c s n)

-- A page of a process that is not in memory, found by its segment and its number.
pub record IsAbsent (c : MemoryConfig) (s : Memory) (pcb : Pcb) (segment_number page_number : ℤ)
    (page : ℕ) (row : PageRow) (clock : ClockStruct) : Type 0 where
  pub segment : Segment
  pub table : PageTable
  pub position : ℕ
  pub segment_in : list_get pcb.segment_table segment_number ≡ some segment
  pub table_in : get_page_table_by_index segment.index_page s ≡ some table
  pub page_in : list_get table.pages_list page_number ≡ some page
  pub row_in : get_elem? s.rows page ≡ some row
  pub position_eq : row.swap_position ≡ pos position
  pub position_in : position * c.tam_pagina + c.tam_pagina ≤ length s.swap_file
  pub clock_in : s.clock_structures pcb.process_id ≡ some clock
  -- No page of the process's clock is this page, or has its place in the swap file.
  pub away : IsNotOf page clock.frames_in_memory
  pub apart :
      (i : ℕ) (entry : ClockRow) (other : PageRow)
      → get_elem? clock.frames_in_memory i ≡ some entry
      → get_elem? s.rows entry.page ≡ some other
      → other.swap_position ≢ pos position

module _ (c : MemoryConfig) (s : Memory) (pid : ℤ) (clock : ClockStruct) where
  -- What `choose_frame` leaves for the page that is to come.
  record Chosen (page position : ℕ) : Type 0 where
    frame : ℕ
    after : Memory
    result : choose_frame c pid s ≡ some (pos frame, after)
    frame_in : HasFrame c after frame
    row_kept : get_elem? after.rows page ≡ get_elem? s.rows page
    bytes_kept : read_page_swap c (pos position) after ≡ read_page_swap c (pos position) s
    length_kept : length after.swap_file ≡ length s.swap_file
    tables_kept : after.all_page_tables ≡ s.all_page_tables
    pointer : ℕ
    clock_kept : after.clock_structures pid ≡ some (record clock { pointer = pointer })

  -- The algorithm of the configuration on a full clock.
  pub replaced :
      IsClock c s clock.frames_in_memory s.rows
      → clock.pointer < c.marcos_por_proceso
      → IsAlgorithm c
      → s.clock_structures pid ≡ some clock
      → Replaces c pid s clock (use_replacement_algorithm c pid s)
  unfolding use_replacement_algorithm
  replaced w hp (inl m) hc = rw m (modified_clock-Replaces c pid s clock hc w hp)
  replaced w hp (inr m) hc = elim (Bool-cases (strcmp_eq c.algoritmo_reemplazo (codes "CLOCK-M"))) [
    | inl n ↦ rw n (modified_clock-Replaces c pid s clock hc w hp)
    | inr n ↦ rw (n, m) (simple_clock-Replaces c pid s clock hc w hp)
  ]

  choose_frame-Chosen :
      (page position : ℕ)
      → s.clock_structures pid ≡ some clock
      → IsNotOf page clock.frames_in_memory
      → ((i : ℕ) (entry : ClockRow) (other : PageRow)
          → get_elem? clock.frames_in_memory i ≡ some entry
          → get_elem? s.rows entry.page ≡ some other
          → other.swap_position ≢ pos position)
      → CanHaveFrame c s clock
      → Chosen page position
  unfolding choose_frame
  choose_frame-Chosen page position hc away apart (inl (w, hp, alg)) =
      let r = replaced w hp alg hc in
      let full : (length clock.frames_in_memory == c.marcos_por_proceso) ≡ true =
        (==_iff _ _).1 w.full in
      record {
        frame = r.sound.frame;
        after = r.after;
        result = rw (hc, full) (r.result ∙ ap (λ f. some (f, r.after)) r.sound.entry_eq);
        frame_in =
            rw (r.evicted.bits_length, r.evicted.memory_kept) (r.sound.bit_in, r.sound.frame_in);
        row_kept = r.others page away;
        bytes_kept = r.evicted.swap_others position (
            apart r.index r.entry (record r.row { use_bit = r.sound.used_before }) r.entry_in
              r.sound.origin);
        length_kept = r.evicted.swap_length;
        tables_kept = r.evicted.tables_kept;
        pointer = r.next;
        clock_kept = r.clock_after;
      }
  choose_frame-Chosen page position hc away apart (inr (n, ne, free, inside)) = record {
    frame = n;
    after = s;
    result = rw (hc, free) (ground arith);
    frame_in = inside;
    row_kept = refl;
    bytes_kept = refl;
    length_kept = refl;
    tables_kept = refl;
    pointer = clock.pointer;
    clock_kept = hc;
  }

pub table_kept :
    (index : ℤ) (t s : Memory)
    → t.all_page_tables ≡ s.all_page_tables
    → get_page_table_by_index index t ≡ get_page_table_by_index index s
unfolding get_page_table_by_index
table_kept index t s e = rw e

pub set_bit_lem :
    (bits : List Bool) (n : ℕ) → n < length bits → set_bit bits (pos n) ≡ some (set bits n true)
unfolding set_bit
set_bit_lem bits n h = ground arith

-- What `load_page` does with a frame that is in range.
load_page_lem :
    (c : MemoryConfig) (pid : ℤ) (s : Memory) (page frame position : ℕ) (row : PageRow)
    (clock : ClockStruct)
    → get_elem? s.rows page ≡ some row
    → row.swap_position ≡ pos position
    → position * c.tam_pagina + c.tam_pagina ≤ length s.swap_file
    → HasFrame c s frame
    → s.clock_structures pid ≡ some clock
    → (t : Memory) × (load_page c pid page (pos frame) s ≡ some t)
      × (get_elem? t.rows page ≡ some (loaded (pos frame) row))
      × (get_elem? t.bitmap_memory frame ≡ some true)
      × (read_frame c (pos frame) t ≡ read_page_swap c (pos position) s)
      × (t.all_page_tables ≡ s.all_page_tables)
unfolding load_page add_page_to_clock_structure set_struct_clock read_frame
load_page_lem c pid s page frame position row clock hr hp inside (bit, room) hc =
    let (v, e, l) = read_page_swap_in_range c position s inside in
    let (bytes, w) = write_frame_in_range c frame v s l room in
    let frames = put_page (pos frame) page row.swap_position clock.frames_in_memory in
    (
      set_struct_clock pid (record clock { frames_in_memory = frames })
          (record s {
            principal_memory = bytes;
            bitmap_memory = set s.bitmap_memory frame true;
            rows = set s.rows page (loaded (pos frame) row);
          }),
      rw (hr, hp, e, w, set_bit_lem s.bitmap_memory frame bit, hc),
      get_elem?-set_self s.rows page (loaded (pos frame) row) (get_elem?-lt s.rows page row hr),
      get_elem?-set_self s.bitmap_memory frame true bit,
      read-write_frame c (pos frame) v s (record s { principal_memory = bytes }) l w ∙ sym e,
      refl,
    )

module _ (c : MemoryConfig) (s : Memory) (pcb : Pcb) (segment_number page_number : ℤ) (page : ℕ)
    (row : PageRow) (clock : ClockStruct) where
  -- A page fault is solved in every state where the page is absent and the process can have a
  -- frame: the kernel is answered, the frame's bit is set, the frame holds the bytes that the swap
  -- file had for the page, and the CPU's next request for the page is answered with that frame.
  pub solve_page_fault_lem :
      (h : IsAbsent c s pcb segment_number page_number page row clock)
      → CanHaveFrame c s clock
      → (frame : ℕ) × (t : Memory) × (solve_page_fault c pcb segment_number page_number s
          ≡ some (response_page_fault pcb, t))
        × (get_elem? t.bitmap_memory frame ≡ some true)
        × (read_frame c (pos frame) t ≡ read_page_swap c row.swap_position s)
        × (attend_cpu c (frame_request pcb page_number segment_number) t
            ≡ some (frame_response (pos frame), t))
  unfolding solve_page_fault attend_cpu get_frame_number_ram get_row
  solve_page_fault_lem h ready =
      let chosen =
        choose_frame-Chosen c s pcb.process_id clock page h.position h.clock_in h.away h.apart
          ready in
      let (t, e, hr, hb, hf, ht) =
        load_page_lem c pcb.process_id chosen.after page chosen.frame h.position row
          (record clock { pointer = chosen.pointer }) (chosen.row_kept ∙ h.row_in) h.position_eq
          (rw chosen.length_kept h.position_in) chosen.frame_in chosen.clock_kept in
      let tables = ht ∙ chosen.tables_kept in
      (
        chosen.frame,
        t,
        rw (h.segment_in, h.table_in, h.page_in, chosen.result, e),
        hb,
        hf ∙ chosen.bytes_kept ∙ ap (λ p. read_page_swap c p s) (sym h.position_eq),
        rw (h.segment_in, table_kept h.segment.index_page t s tables, h.table_in, h.page_in, hr),
      )
