-- ===== src/Memory/View/Lookup.antt =====
-- The segments that `init_process_structures` of memoria/src/memoria.c answers lead to the tables that it
-- has built.
use geck.Prelude.{
  ℕ, zero, suc, ◌+◌, ◌≤◌, ◌<◌, ◌≡◌, ◌≢◌, ==_iff, ==_ne, refl, sym, ap, ◌∙◌, subst, pos, eqb_ℤ_ne,
  List, [], ◌∷◌, ◌++◌, some, All, length, take, get_elem?, arith,
}
use geck.Shared.{Pcb, Segment}
use geck.Memory.{MemoryConfig, PageTable, Memory}
use geck.Memory.Bitmap.Free.{free_in}
use geck.Memory.Tables.{calculate_frames_of_segment, find_table, get_page_table_by_index, rounds}
use geck.Memory.Handlers.{
  init_process_structures_memory, init_process_structures_memory_response, attend_kernel,
}
use geck.Memory.View.{Owners, IsStore}
use geck.Memory.View.Segments.{pages_needed, rows_from, tables_of, indexed}
use geck.Memory.View.Init.{init_process_structures-IsStore}

-- Every table has an id below `bound`.
abbrev pub HasIdsBelow : ℕ → List PageTable → Type 0
HasIdsBelow bound = All (λ (table : PageTable). (n : ℕ) × (table.id ≡ pos n) × (n < bound))

pos_ne : (m n : ℕ) → m < n → pos n ≢ pos m
pos_ne m n h e = ground (arith, e)

HasIdsBelow-append :
    (bound more : ℕ) (tables added : List PageTable)
    → bound ≤ more
    → HasIdsBelow bound tables
    → HasIdsBelow more added
    → HasIdsBelow more (tables ++ added)
HasIdsBelow-append bound more [] added h before behind = behind
HasIdsBelow-append bound more (table ∷ rest) added h ((n, e, small), before) behind =
    ((n, e, omega arith), HasIdsBelow-append bound more rest added h before behind)

tables_of-HasIdsBelow :
    (c : MemoryConfig) (i id from bound : ℕ) (segments : List Segment)
    → id + length segments ≤ bound
    → HasIdsBelow bound (tables_of c i id from segments)
tables_of-HasIdsBelow c i id from bound [] h = tt
tables_of-HasIdsBelow c i id from bound (segment ∷ rest) h =
    ((id, refl, omega arith), tables_of-HasIdsBelow c (suc i) (suc id) _ bound rest (omega arith))

-- The search passes the tables with smaller ids.
find_table-append :
    (index bound : ℕ) (tables added : List PageTable)
    → bound ≤ index
    → HasIdsBelow bound tables
    → find_table (pos index) (tables ++ added) ≡ find_table (pos index) added
unfolding find_table
find_table-append index bound [] added h before = refl
find_table-append index bound (table ∷ rest) added h ((n, e, small), before) =
    rw (e, eqb_ℤ_ne (pos index) (pos n) (pos_ne n index (omega arith)))
      (find_table-append index bound rest added h before)

-- The table of the segment `i`.
abbrev pub table_of : MemoryConfig → ℕ → ℕ → ℕ → List Segment → ℕ → Segment → PageTable
table_of c j id from segments i segment = record {
  id = pos (id + i);
  pages_list =
      rows_from (from + pages_needed c (take i segments))
        (rounds (calculate_frames_of_segment c segment.size));
  segment_num = pos (j + i);
}

add_zero : (n : ℕ) → n + 0 ≡ n
add_zero n = omega arith

add_suc : (m n : ℕ) → m + suc n ≡ suc m + n
add_suc m n = omega arith

add_assoc : (l m n : ℕ) → (l + m) + n ≡ l + (m + n)
add_assoc l m n = omega arith

first_of_some :
    (first segment : Segment) (rest : List Segment)
    → get_elem? (first ∷ rest) 0 ≡ some segment
    → first ≡ segment
first_of_some first segment rest e = cc

find_table-tables_of :
    (c : MemoryConfig) (j id from i : ℕ) (segments : List Segment) (segment : Segment)
    → get_elem? segments i ≡ some segment
    → find_table (pos (id + i)) (tables_of c j id from segments)
      ≡ some (table_of c j id from segments i segment)
unfolding find_table
find_table-tables_of c j id from i [] segment e = absurd (cc)
find_table-tables_of c j id from zero (first ∷ rest) segment e =
    rw
      (
        add_zero id,
        add_zero from,
        add_zero j,
        (==_iff id id).1 refl,
        first_of_some first segment rest e,
      )
      refl
find_table-tables_of c j id from (suc i) (first ∷ rest) segment e =
    let n = rounds (calculate_frames_of_segment c first.size) in
    rw
      (
        ==_ne (id + suc i) id (λ e'. omega (arith, e')),
        add_suc j i,
        sym (add_assoc from n (pages_needed c (take i rest))),
      )
      (subst
        (λ q.
          find_table (pos q) (tables_of c (suc j) (suc id) (from + n) rest)
          ≡ some (record {
            id = pos q;
            pages_list =
                rows_from (from + n + pages_needed c (take i rest))
                  (rounds (calculate_frames_of_segment c segment.size));
            segment_num = pos (suc j + i);
          }))
        (sym (add_suc id i)) (find_table-tables_of c (suc j) (suc id) (from + n) i rest segment e))

get_elem?-indexed :
    (id i : ℕ) (segments : List Segment) (segment : Segment)
    → get_elem? segments i ≡ some segment
    → get_elem? (indexed id segments) i ≡ some (record segment { index_page = pos (id + i) })
get_elem?-indexed id i [] segment e = absurd (cc)
get_elem?-indexed id zero (first ∷ rest) segment e =
    rw (add_zero id, first_of_some first segment rest e) refl
get_elem?-indexed id (suc i) (first ∷ rest) segment e =
    rw (add_suc id i) (get_elem?-indexed (suc id) i rest segment e)

-- When a process comes into a store, in which every table has an id below the counter, and the swap file
-- has a free place for each of its pages: for each of its segments, the search by the `index_page` that
-- the process is answered finds a table of the segment's number, whose pages are the new rows behind those
-- of the segments before it, as many as the segment needs; and every table has an id below the counter
-- again.
pub get_page_table_by_index-init :
    (c : MemoryConfig) (g : Owners) (s : Memory) (pcb : Pcb) (i : ℕ) (segment : Segment)
    → 0 < c.marcos_por_proceso
    → IsStore c s g
    → pages_needed c pcb.segment_table ≤ free_in c s.bitmap_swap
    → HasIdsBelow s.page_tables_counter s.all_page_tables
    → get_elem? pcb.segment_table i ≡ some segment
    → (segments : List Segment) × (t : Memory) × (answered : Segment) × (table : PageTable)
      × (attend_kernel c (init_process_structures_memory pcb) s
          ≡ some (
            init_process_structures_memory_response (record pcb { segment_table = segments }),
            t,
          ))
      × (get_elem? segments i ≡ some answered)
      × (get_page_table_by_index answered.index_page t ≡ some table)
      × (table.segment_num ≡ pos i)
      × (table.pages_list
          ≡ rows_from
              (length s.rows + pages_needed c (take i pcb.segment_table))
              (rounds (calculate_frames_of_segment c segment.size)))
      × HasIdsBelow t.page_tables_counter t.all_page_tables
unfolding get_page_table_by_index
get_page_table_by_index-init c g s pcb i segment room w enough below e =
    let (t, result, tables, counter, w', more, fewer, same) =
      init_process_structures-IsStore c g s pcb room w enough 0 in
    let id = s.page_tables_counter in
    let new = tables_of c 0 id (length s.rows) pcb.segment_table in
    (
      indexed id pcb.segment_table,
      t,
      record segment { index_page = pos (id + i) },
      table_of c 0 id (length s.rows) pcb.segment_table i segment,
      result,
      get_elem?-indexed id i pcb.segment_table segment e,
      rw tables (
          find_table-append (id + i) id s.all_page_tables new (omega arith) below
          ∙ find_table-tables_of c 0 id (length s.rows) i pcb.segment_table segment e),
      ap pos (omega arith),
      refl,
      rw (tables, counter)
          (HasIdsBelow-append id (id + length pcb.segment_table) s.all_page_tables new (omega arith)
            below (tables_of-HasIdsBelow c 0 id (length s.rows) _ pcb.segment_table (omega arith))),
    )
