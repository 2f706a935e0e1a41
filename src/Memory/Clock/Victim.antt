-- ===== src/Memory/Clock/Victim.antt =====
-- What a replacement does: its victim leaves memory, and its bytes are in the swap file.
use geck.Prelude.{
  ℕ, suc, ◌*◌, ◌%◌, ◌^◌, ◌<◌, ◌≡◌, ◌≢◌, refl, ap, ◌∙◌, inl, inr, ℤ, pos, List, Bool, false,
  Bool-cases, Option, some, length, get_elem?, set, length-set, get_elem?-set_self,
  get_elem?-set_ne, get_elem?-lt, eqb_ℤ_iff, arith,
}
use geck.Memory.{MemoryConfig, PageRow, ClockRow, ClockStruct, Memory, set_struct_clock}
use geck.Memory.Bitmap.{clean_bit}
use geck.Memory.Store.{read_slice, write_slice, read_page_swap, write_page_swap, read_frame}
use geck.Memory.Store.Slices.{
  read_slice_in_range, write_slice_in_range, read-write_slice, read-write_slice_ne,
  length-write_slice,
}
use geck.Memory.Store.Frames.{other_page}
use geck.Memory.Clock.{
  Found, move_to_next_pointer, replace_by_clock, evict, simple_clock, modified_clock,
}
use geck.Memory.Clock.Halting.{
  IsSound, IsNotOf, IsClock, IsVictim, simple_search-IsVictim, use_count-le,
}
use geck.Memory.Clock.Passes.{modified_search-IsVictim}

-- The state `t` after a page of the state `s` has left memory.
pub record IsEvicted (c : MemoryConfig) (s t : Memory) (frame page : ℕ) (row : PageRow)
    : Type 0 where
  pub row_out : get_elem? t.rows page ≡ some (record row { modified = false; presence = false })
  pub bit_clean : get_elem? t.bitmap_memory frame ≡ some false
  pub saved : read_page_swap c row.swap_position t ≡ read_frame c (pos frame) s
  pub memory_kept : t.principal_memory ≡ s.principal_memory
  pub swap_length : length t.swap_file ≡ length s.swap_file
  pub tables_kept : t.all_page_tables ≡ s.all_page_tables
  pub swap_others :
      (position : ℕ)
      → row.swap_position ≢ pos position
      → read_page_swap c (pos position) t ≡ read_page_swap c (pos position) s
  pub bits_length : length t.bitmap_memory ≡ length s.bitmap_memory

-- A page is written to its place in the swap file.
written_back :
    (c : MemoryConfig) (s : Memory) (entry : ClockRow) (row : PageRow)
    → (h : IsSound c s entry row)
    → (v : List ℕ) × (file : List ℕ) × (read_slice s.principal_memory
          (h.frame * c.tam_pagina)
          c.tam_pagina
        ≡ some v)
      × (length v ≡ c.tam_pagina)
      × (write_slice s.swap_file (h.position * c.tam_pagina) v ≡ some file)
written_back c s entry row h =
    let (v, e, l) =
      read_slice_in_range s.principal_memory (h.frame * c.tam_pagina) c.tam_pagina h.frame_in in
    (
      v,
      _,
      e,
      l,
      write_slice_in_range s.swap_file (h.position * c.tam_pagina) v (omega (arith, h.position_in)),
    )

clean_bit_lem :
    (bits : List Bool) (n : ℕ)
    → n < length bits
    → (clean_bit bits (pos n) ≡ some (set bits n false))
      × (get_elem? (set bits n false) n ≡ some false)
unfolding clean_bit
clean_bit_lem bits n h = (ground arith, get_elem?-set_self bits n false h)

module _ (c : MemoryConfig) (s : Memory) (rows : List PageRow) (entry : ClockRow)
    (row : PageRow) where
  abbrev pub scanned : Memory
  scanned = record s { rows = rows }

  -- The state with the victim out of memory, and a swap file.
  abbrev pub evicted_state : List ℕ → ℕ → Memory
  evicted_state file frame = record scanned {
    rows = set rows entry.page (record row { modified = false; presence = false });
    swap_file = file;
    bitmap_memory = set s.bitmap_memory frame false;
  }

  -- The victim's row, its bit and its bytes after `replace_by_clock`.
  replace_by_clock-IsEvicted :
      (h : IsSound c s entry row)
      → get_elem? rows entry.page ≡ some row
      → (t : Memory) × (replace_by_clock c entry.page scanned ≡ some t)
        × IsEvicted c s t h.frame entry.page row
        × (file : List ℕ) × (t ≡ evicted_state file h.frame)
  unfolding replace_by_clock write_page_swap read_frame read_page_swap
  replace_by_clock-IsEvicted h hr =
      let (cleaned, bit) = clean_bit_lem s.bitmap_memory h.frame h.bit_in in
      let out =
        get_elem?-set_self rows entry.page (record row { modified = false; presence = false })
          (get_elem?-lt rows entry.page row hr) in
      let bits = length-set s.bitmap_memory h.frame false in
      elim (Bool-cases row.modified) [
        | inl dirty ↦
            let (v, file, e, l, written) = written_back c s entry row h in
            (
              evicted_state file h.frame,
              rw (hr, dirty, h.frame_eq, e, h.position_eq, written, cleaned),
              record {
                row_out = out;
                bit_clean = bit;
                saved =
                    rw (h.position_eq, e, ← l)
                      (read-write_slice s.swap_file (h.position * length v) v file (rw l written));
                memory_kept = refl;
                swap_length =
                    length-write_slice s.swap_file (h.position * c.tam_pagina) v file written;
                bits_length = bits;
                tables_kept = refl;
                swap_others = λ q ne.
                    read-write_slice_ne s.swap_file (h.position * c.tam_pagina) v file
                      (q * c.tam_pagina) c.tam_pagina written
                      (other_page c.tam_pagina h.position q (length v) l
                        (λ e. ne (h.position_eq ∙ ap pos e)));
              },
              file,
              refl,
            )
        | inr clean ↦ (
          evicted_state s.swap_file h.frame,
          rw (hr, clean, h.frame_eq, cleaned),
          record {
            row_out = out;
            bit_clean = bit;
            saved = rw h.position_eq (h.coherent clean);
            memory_kept = refl;
            swap_length = refl;
            bits_length = bits;
            tables_kept = refl;
            swap_others = λ q ne. refl;
          },
          s.swap_file,
          refl,
        )
      ]

-- What a run of a replacement algorithm does to the clock of a process.
pub record Replaces (c : MemoryConfig) (pid : ℤ) (s : Memory) (clock : ClockStruct)
    (run : Option (ℤ × Memory)) : Type 0 where
  pub index : ℕ
  pub entry : ClockRow
  pub row : PageRow
  pub after : Memory
  pub result : run ≡ some (entry.frame_number_in_memory, after)
  pub entry_in : get_elem? clock.frames_in_memory index ≡ some entry
  pub sound : IsSound c s entry row
  pub unused : row.use_bit ≡ false
  pub evicted : IsEvicted c s after sound.frame entry.page row
  pub next : ℕ
  pub next_in : next < c.marcos_por_proceso
  pub behind : next ≡ move_to_next_pointer c index
  pub others :
      (page : ℕ)
      → IsNotOf page clock.frames_in_memory
      → get_elem? after.rows page ≡ get_elem? s.rows page
  pub clock_after : after.clock_structures pid ≡ some (record clock { pointer = next })
  -- The rows of the search, and the whole state.
  pub rows : List PageRow
  pub file : List ℕ
  pub scan : IsClock c s clock.frames_in_memory rows
  pub row_in : get_elem? rows entry.page ≡ some row
  pub state :
      after
      ≡ set_struct_clock pid
          (record clock { pointer = next })
          (evicted_state c s rows entry row file sound.frame)

evict-Replaces :
    (c : MemoryConfig) (pid : ℤ) (s : Memory) (clock : ClockStruct) (found : Found)
    → IsVictim c s clock.frames_in_memory found
    → Replaces c pid s clock (evict c pid clock found s)
unfolding evict set_struct_clock read_page_swap
evict-Replaces c pid s clock found v =
    let h = v.rows_kept.sound v.index found.entry v.row v.entry_in v.row_in in
    let (t, e, out, file, shape) =
      replace_by_clock-IsEvicted c s found.rows found.entry v.row h v.row_in in
    let small : found.next % 2 ^ 16 ≡ found.next = omega (arith, v.next_in, v.rows_kept.small) in
    record {
      index = v.index;
      entry = found.entry;
      row = v.row;
      after = set_struct_clock pid (record clock { pointer = found.next % 2 ^ 16 }) t;
      result = rw e;
      entry_in = v.entry_in;
      sound = h;
      unused = v.unused;
      evicted = record {
        row_out = out.row_out;
        bit_clean = out.bit_clean;
        saved = out.saved;
        memory_kept = out.memory_kept;
        swap_length = out.swap_length;
        bits_length = out.bits_length;
        tables_kept = out.tables_kept;
        swap_others = out.swap_others;
      };
      next = found.next;
      next_in = v.next_in;
      behind = v.behind;
      others = λ k away.
          ap (λ (m : Memory). get_elem? m.rows k) shape
          ∙ get_elem?-set_ne found.rows found.entry.page k _ (away v.index found.entry v.entry_in)
          ∙ v.rows_kept.others k away;
      clock_after = rw ((eqb_ℤ_iff pid pid).1 refl, small) refl;
      rows = found.rows;
      file = file;
      scan = v.rows_kept;
      row_in = v.row_in;
      state = rw (small, shape) refl;
    }

module _ (c : MemoryConfig) (pid : ℤ) (s : Memory) (clock : ClockStruct) where
  -- CLOCK ends on every clock that has all its frames and whose pages are sound. It returns the
  -- frame of an entry whose page has use 0, the pointer moves behind it, its page is no longer
  -- present, its frame is free, and its place in the swap file holds the bytes of its frame.
  pub simple_clock-Replaces :
      s.clock_structures pid ≡ some clock
      → IsClock c s clock.frames_in_memory s.rows
      → clock.pointer < c.marcos_por_proceso
      → Replaces c pid s clock (simple_clock c pid s)
  unfolding simple_clock
  simple_clock-Replaces hc w hp =
      let frames = clock.frames_in_memory in
      let (found, e, v) =
        simple_search-IsVictim c s frames (suc (length frames)) clock.pointer s.rows w hp
          (omega (arith, use_count-le s.rows frames)) in
      rw (hc, e) (evict-Replaces c pid s clock found v)

  -- CLOCK-M ends on the same clocks, and does the same to an entry whose page has use 0.
  pub modified_clock-Replaces :
      s.clock_structures pid ≡ some clock
      → IsClock c s clock.frames_in_memory s.rows
      → clock.pointer < c.marcos_por_proceso
      → Replaces c pid s clock (modified_clock c pid s)
  unfolding modified_clock
  modified_clock-Replaces hc w hp =
      let frames = clock.frames_in_memory in
      let (found, e, v) =
        modified_search-IsVictim c s frames clock.pointer (suc (length frames)) s.rows w hp
          (omega (arith, use_count-le s.rows frames)) in
      rw (hc, e) (evict-Replaces c pid s clock found v)
