-- ===== src/Memory/Handlers/Moves.antt =====
-- MOV_OUT and then MOV_IN at one address.
use geck.Prelude.{
  ℕ, suc, ◌+◌, ◌/◌, ◌≤◌, ◌≡◌, refl, ap, ◌∙◌, ℤ, pos, IsU32, List, ◌∷◌, [], zero, true, some, length,
  Option, ◌>>=◌, >>=-eq-some, get_elem?, take, drop, ◌++◌, set, length-set, get_elem?-set_self,
  get_elem?-lt, get_elem?_of_lt,
}
use geck.Shared.{Pcb}
use geck.Shared.Wire.{word_bytes}
use geck.Memory.{MemoryConfig, PageRow, Memory}
use geck.Memory.Store.{read_value_in_principal_memory, write_slice, write_word}
use geck.Memory.Store.Slices.{write_slice_in_range, read_value-write_word}
use geck.Memory.Tables.{get_row}
use geck.Memory.Access.{save_value_in_memory, update_page_use}
use geck.Memory.Access.Marks.{Holds, find_loaded_lem, mark_used_lem, IsPresent}
use geck.Memory.Handlers.{mov_out, mov_in, mov_out_ok, mov_in_ok, attend_cpu}
use geck.Memory.Handlers.PageFault.{table_kept}

set_same {ℓ} :
    {A : Type ℓ} (xs : List A) (i : ℕ) (v : A) → get_elem? xs i ≡ some v → set xs i v ≡ xs
set_same [] i v e = refl
set_same (x ∷ xs) zero v e = ap (λ y. y ∷ xs) (cc)
set_same (x ∷ xs) (suc i) v e = ap (◌∷◌ x) (set_same xs i v e)

pub write_word_in_range :
    (n value : ℕ) (s : Memory)
    → n + 4 ≤ length s.principal_memory
    → (bytes : List ℕ) × (write_word (pos n) value s ≡ some (record s { principal_memory = bytes }))
unfolding write_word
write_word_in_range n value s h = (
  take n s.principal_memory ++ (word_bytes value ++ drop (n + 4) s.principal_memory),
  rw (write_slice_in_range s.principal_memory n (word_bytes value) h),
)

-- The bytes after a word is written.
pub write_word_slice :
    (n value : ℕ) (s : Memory) (bytes : List ℕ)
    → write_word (pos n) value s ≡ some (record s { principal_memory = bytes })
    → write_slice s.principal_memory n (word_bytes value) ≡ some bytes
unfolding write_word
write_word_slice n value s bytes e =
    let (out, written, e') =
      >>=-eq-some (write_slice s.principal_memory n (word_bytes value)) _ e in
    written ∙ ap (λ (m : Option Memory). m >>= λ m'. some m'.principal_memory) e'

module _ (c : MemoryConfig) (s : Memory) (pcb : Pcb) (segment_number page_number : ℤ)
    (n value : ℕ) where
  -- What MOV_OUT leaves at an address of a page in memory.
  record Stored (h : IsPresent c s pcb segment_number page_number (n / c.tam_pagina)) : Type 0 where
    marked : ℕ
    row : PageRow
    after : Memory
    result : save_value_in_memory c (pos n) value h.segment.index_page s ≡ some after
    row_in : get_elem? s.rows marked ≡ some row
    holds : Holds row (pos (n / c.tam_pagina))
    rows_set : after.rows ≡ set s.rows marked (record row { modified = true })
    tables_kept : after.all_page_tables ≡ s.all_page_tables
    clocks_kept : after.clock_structures ≡ s.clock_structures
    readable : read_value_in_principal_memory (pos n) after ≡ some value

  save_value-Stored :
      (h : IsPresent c s pcb segment_number page_number (n / c.tam_pagina))
      → n + 4 ≤ length s.principal_memory
      → IsU32 value
      → Stored h
  unfolding save_value_in_memory read_value_in_principal_memory
  save_value-Stored h room small =
      let (p, r, found, hr, holds) =
        find_loaded_lem s.rows (pos (n / c.tam_pagina)) h.table.pages_list h.position h.page h.row
          h.pages_in h.page_in h.row_in h.holds in
      let (bytes, written) = write_word_in_range n value s room in
      record {
        marked = p;
        row = r;
        after = record s {
          principal_memory = bytes;
          rows = set s.rows p (record r { modified = true });
        };
        result = rw (
          h.table_in,
          found,
          hr,
          written,
          h.index_eq,
          set_same s.all_page_tables h.index h.table h.index_in,
        );
        row_in = hr;
        holds = holds;
        rows_set = refl;
        tables_kept = refl;
        clocks_kept = refl;
        readable =
            read_value-write_word (pos n) value s (record s { principal_memory = bytes }) small
              written;
      }

  -- A value of 32 bits that MOV_OUT has stored at an address of a page in memory is the answer of
  -- the next MOV_IN at this address; both requests are answered, and a row that is present in the
  -- frame of the address is marked as modified.
  pub mov_in-mov_out :
      (h : IsPresent c s pcb segment_number page_number (n / c.tam_pagina)) (pid : ℤ)
      → n + 4 ≤ length s.principal_memory
      → IsU32 value
      → (t u : Memory) × (marked : ℕ) × (row : PageRow) × (attend_cpu c
            (mov_out (pos n) value h.segment.index_page pid)
            s
          ≡ some (mov_out_ok, t))
        × (attend_cpu c (mov_in (pos n) pcb segment_number page_number) t
            ≡ some (mov_in_ok value, u))
        × (get_elem? t.rows marked ≡ some row)
        × Holds row (pos (n / c.tam_pagina))
        × (row.modified ≡ true)
  unfolding attend_cpu update_page_use get_row read_value_in_principal_memory
  mov_in-mov_out h pid room small =
      let st = save_value-Stored h room small in
      let t = st.after in
      let same_length : length t.rows ≡ length s.rows =
        ap length st.rows_set ∙ length-set s.rows st.marked (record st.row { modified = true }) in
      let (row, hr) =
        get_elem?_of_lt t.rows h.page
          (rw same_length (get_elem?-lt s.rows h.page h.row h.row_in)) in
      let (rows, marks) =
        mark_used_lem row.frame_number h.clock.frames_in_memory t.rows
          (rw same_length h.entries_in) in
      (
        t,
        record t { rows = rows },
        st.marked,
        record st.row { modified = true },
        rw st.result,
        rw (
          h.segment_in,
          table_kept h.segment.index_page t s st.tables_kept,
          h.table_in,
          h.number_eq,
          h.page_in,
          hr,
          st.clocks_kept,
          h.clock_in,
          marks,
          st.readable,
        ),
        rw st.rows_set (
            get_elem?-set_self s.rows st.marked _ (get_elem?-lt s.rows st.marked st.row st.row_in)),
        st.holds,
        refl,
      )
