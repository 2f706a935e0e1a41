-- ===== src/Memory/View/Segments.antt =====
-- The tables and the rows of a new process's segments: the loop of `init_process_structures` of
-- memoria/src/memoria.c.
use geck.Prelude.{
  ℕ, zero, suc, ◌+◌, ◌≤◌, ◌≡◌, refl, sym, ap, ◌∙◌, subst, ℤ, pos, List, [], ◌∷◌, ◌++◌, append_assoc,
  append-nil, some, length, arith,
}
use geck.Shared.{Segment}
use geck.Memory.{MemoryConfig, PageTable, Memory}
use geck.Memory.Bitmap.Free.{free_in}
use geck.Memory.Tables.{
  calculate_frames_of_segment, build_rows, builder_page_table, init_segments, rounds,
}
use geck.Memory.View.{Owners}
use geck.Memory.View.Extend.{Extends, Extends-refl, IsPage-Extends, HasClock-Extends}
use geck.Memory.View.Grow.{IsGrown, Grown, Grown-trans, SameTables, build_row-Grown}

-- The pages of the segments of a process.
abbrev pub pages_needed : MemoryConfig → List Segment → ℕ
pages_needed c [] = 0
pages_needed c (segment ∷ rest) =
    rounds (calculate_frames_of_segment c segment.size) + pages_needed c rest

-- `n` rows, one behind the other, from the row `from` on.
abbrev pub rows_from : ℕ → ℕ → List ℕ
rows_from from zero = []
rows_from from (suc n) = from ∷ rows_from (suc from) n

-- The tables of a process's segments: they have the ids from `id` on, and share out the rows from `from`
-- on.
abbrev pub tables_of : MemoryConfig → ℕ → ℕ → ℕ → List Segment → List PageTable
tables_of c i id from [] = []
tables_of c i id from (segment ∷ rest) =
    let n = rounds (calculate_frames_of_segment c segment.size) in
    record { id = pos id; pages_list = rows_from from n; segment_num = pos i }
    ∷ tables_of c (suc i) (suc id) (from + n) rest

-- Each segment with the id of its table.
abbrev pub indexed : ℕ → List Segment → List Segment
indexed id [] = []
indexed id (segment ∷ rest) = record segment { index_page = pos id } ∷ indexed (suc id) rest

module _ (c : MemoryConfig) (g : Owners) (pid : ℤ) (from : ℕ) where
  Grown-none : (s : Memory) → IsGrown c g pid from s → Grown c g pid from s s 0
  Grown-none s w = record {
    extends = Extends-refl s;
    store = w;
    more = omega arith;
    fewer = omega arith;
  }

  build_rows-Grown :
      (n : ℕ) (s : Memory)
      → IsGrown c g pid from s
      → n ≤ free_in c s.bitmap_swap
      → (t : Memory) × (build_rows c n s ≡ some (rows_from (length s.rows) n, t))
        × SameTables s t
        × Grown c g pid from s t n
  unfolding build_rows
  build_rows-Grown zero s w enough = (s, refl, (refl, refl), Grown-none s w)
  build_rows-Grown (suc n) s w enough =
      let (t, e, same, h) = build_row-Grown c g pid from s w (omega (arith, enough)) in
      let (u, e', kept, k) = build_rows-Grown n t h.store (omega (arith, enough, h.fewer)) in
      let next : length t.rows ≡ suc (length s.rows) = omega (arith, h.more) in
      (
        u,
        rw (e, e', next) refl,
        (kept.0 ∙ same.0, kept.1 ∙ same.1),
        subst (Grown c g pid from s u) (omega arith) (Grown-trans c g pid from s t u 1 n h k),
      )

  -- The tables of the module are not pages.
  IsGrown-tables :
      (s : Memory) (tables : List PageTable) (counter : ℕ)
      → IsGrown c g pid from s
      → IsGrown c g pid from (record s { all_page_tables = tables; page_tables_counter = counter })
  IsGrown-tables s tables counter w =
      let t : Memory = record s { all_page_tables = tables; page_tables_counter = counter } in
      let same : Extends s t = record {
        rows_kept = λ p a e. e;
        memory_same = refl;
        file_same = refl;
        bits_same = refl;
        swap_kept = λ n e. e;
        swap_length = refl;
      } in
      record {
        sized = w.sized;
        swap_sized = w.swap_sized;
        small = w.small;
        mapped = record {
          pages = λ p o. IsPage-Extends c s t same p (w.mapped.pages p o);
          swap_apart = w.mapped.swap_apart;
          frame_apart = w.mapped.frame_apart;
        };
        clocks =
            λ q active. HasClock-Extends c s t same _ _ q (λ p o. refl) refl (w.clocks q active);
      }

  pub init_segments-Grown :
      (i : ℕ) (segments : List Segment) (s : Memory)
      → IsGrown c g pid from s
      → pages_needed c segments ≤ free_in c s.bitmap_swap
      → (t : Memory) × (init_segments c i segments s
          ≡ some (indexed s.page_tables_counter segments, t))
        × (t.all_page_tables
            ≡ s.all_page_tables ++ tables_of c i s.page_tables_counter (length s.rows) segments)
        × (t.page_tables_counter ≡ s.page_tables_counter + length segments)
        × Grown c g pid from s t (pages_needed c segments)
  unfolding init_segments builder_page_table
  init_segments-Grown i [] s w enough =
      (s, refl, sym (append-nil s.all_page_tables), omega arith, Grown-none s w)
  init_segments-Grown i (segment ∷ rest) s w enough =
      let n = rounds (calculate_frames_of_segment c segment.size) in
      let (t, e, same, h) = build_rows-Grown n s w (omega (arith, enough)) in
      let table : PageTable = record {
        id = pos s.page_tables_counter;
        pages_list = rows_from (length s.rows) n;
        segment_num = pos i;
      } in
      let u : Memory = record t {
        page_tables_counter = suc t.page_tables_counter;
        all_page_tables = t.all_page_tables ++ (table ∷ []);
      } in
      let more : Grown c g pid from s u n = record {
        extends = record {
          rows_kept = h.extends.rows_kept;
          memory_same = h.extends.memory_same;
          file_same = h.extends.file_same;
          bits_same = h.extends.bits_same;
          swap_kept = h.extends.swap_kept;
          swap_length = h.extends.swap_length;
        };
        store = IsGrown-tables t u.all_page_tables u.page_tables_counter h.store;
        more = h.more;
        fewer = h.fewer;
      } in
      let counted : u.page_tables_counter ≡ suc s.page_tables_counter = ap suc same.1 in
      let (v, e', tables, counter, k) =
        init_segments-Grown (suc i) rest u more.store (omega (arith, enough, h.fewer)) in
      (
        v,
        rw (e, e', counted) refl,
        tables
            ∙ ap
                (λ (l : List PageTable).
                  l
                  ++ (table ∷ [])
                  ++ tables_of c (suc i) u.page_tables_counter (length u.rows) rest)
                same.0
            ∙ append_assoc s.all_page_tables (table ∷ []) _
            ∙ ap (λ (l : List PageTable). s.all_page_tables ++ table ∷ l)
                (rw (counted, h.more) refl),
        omega (arith, counter, counted),
        Grown-trans c g pid from s u v n (pages_needed c rest) more k,
      )
