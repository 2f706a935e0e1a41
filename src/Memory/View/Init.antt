-- ===== src/Memory/View/Init.antt =====
-- A process comes: `init_process_structures` of memoria/src/memoria.c leaves a store with its pages.
use geck.Prelude.{
  ℕ, ◌+◌, ◌*◌, ◌/◌, ◌^◌, ◌≤◌, ◌<◌, ◌≡◌, ◌≢◌, ◌⊎◌, inl, inr, refl, sym, ◌∙◌, subst, ℤ, eqb_ℤ,
  eqb_ℤ_iff, eqb_ℤ_ne, List, [], ◌++◌, true, false, Bool-cases, Option-cases, length-replicate,
  some, none, ltb, lt→ltb, length, get_elem?-lt, arith,
}
use geck.Shared.{Pcb}
use geck.Memory.{MemoryConfig, ClockStruct, Memory, set_struct_clock}
use geck.Memory.Bitmap.{create_bitmap}
use geck.Memory.Bitmap.Free.{free_in}
use geck.Memory.Tables.{create_clock_structure, init_process_structures, init_memory, uint16}
use geck.Memory.Handlers.{
  init_process_structures_memory, init_process_structures_memory_response, attend_kernel,
}
use geck.Memory.View.{contents, Owners, HasOwner, IsPages, HasClock, IsStore}
use geck.Memory.View.Extend.{
  Extends, Extends-trans, IsPage-Extends, contents-Extends, HasClock-Extends,
}
use geck.Memory.View.Grow.{grown}
use geck.Memory.View.Segments.{pages_needed, tables_of, indexed, init_segments-Grown}

module _ (c : MemoryConfig) (g : Owners) (s : Memory) (pcb : Pcb) where
  abbrev pid : ℤ
  pid = pcb.process_id

  abbrev clocked : Memory
  clocked = create_clock_structure pid s

  clocked-Extends : Extends s clocked
  unfolding create_clock_structure set_struct_clock
  clocked-Extends = record {
    rows_kept = λ p a e. e;
    memory_same = refl;
    file_same = refl;
    bits_same = refl;
    swap_kept = λ n e. e;
    swap_length = refl;
  }

  abbrev new_clock : ClockStruct
  new_clock = record { process_id = uint16 pid; frames_in_memory = []; pointer = 0 }

  clock_in : clocked.clock_structures pid ≡ some new_clock
  unfolding create_clock_structure set_struct_clock
  clock_in = rw ((eqb_ℤ_iff pid pid).1 refl) refl

  clock_other : (q : ℤ) → q ≢ pid → clocked.clock_structures q ≡ s.clock_structures q
  unfolding create_clock_structure set_struct_clock
  clock_other q ne = rw (eqb_ℤ_ne pid q (λ e. ne (sym e))) refl

  -- The process has no page yet.
  abbrev started : Owners
  started = grown g pid (length s.rows) (length s.rows)

  started_owner : IsPages c s g → (p : ℕ) → HasOwner g p → started.owner p ≡ g.owner p
  started_owner w p o =
      let x = w.pages p o in
      let inside : ltb p (length s.rows) ≡ true =
        lt→ltb p (length s.rows) (get_elem?-lt s.rows p x.row x.row_in) in
      rw inside refl

  owner_before : (p : ℕ) → HasOwner started p → HasOwner g p
  owner_before p (q, e) = elim (Bool-cases (ltb p (length s.rows))) [
    | inl inside ↦ (q, rw inside at e)
    | inr outside ↦ absurd (cc (rw outside at e))
  ]

  new-HasClock : 0 < c.marcos_por_proceso → HasClock c clocked started pid
  new-HasClock h = record {
    clock = new_clock;
    clock_in = clock_in;
    within = omega arith;
    pointer_in = h;
    entries = λ i entry e. absurd (cc);
    distinct = λ i j a b e e' same. absurd (cc);
  }

  clocked-IsStore : 0 < c.marcos_por_proceso → IsStore c s g → IsStore c clocked started
  unfolding create_clock_structure set_struct_clock
  clocked-IsStore h w = record {
    sized = w.sized;
    swap_sized = w.swap_sized;
    small = w.small;
    mapped = record {
      pages =
          λ p o. IsPage-Extends c s clocked clocked-Extends p (w.mapped.pages p (owner_before p o));
      swap_apart =
          λ p q a b o o'. w.mapped.swap_apart p q a b (owner_before p o) (owner_before q o');
      frame_apart =
          λ p q a b o o'. w.mapped.frame_apart p q a b (owner_before p o) (owner_before q o');
    };
    clocks = λ q active. elim (Bool-cases (eqb_ℤ pid q)) [
      | inl same ↦ subst (HasClock c clocked started) ((eqb_ℤ_iff pid q).0 same) (new-HasClock h)
      | inr other ↦
          HasClock-Extends c s clocked clocked-Extends g started q (started_owner w.mapped)
            (clock_other q (λ e. cc (sym other ∙ (eqb_ℤ_iff pid q).1 (sym e))))
            (w.clocks q (rw other at active))
    ];
  }

  -- A process comes into a store. When the swap file has a free place for each of its pages, and a
  -- process may have a frame, INIT_PROCESS_STRUCTURES_MEMORY is answered with the segments, each with
  -- the id of a new table, from the counter of tables on. The new tables stand behind those before, in
  -- the order of the segments, and share out the new rows, to each segment the next ones, as many as it
  -- needs. What is left is a store in which the process lives and owns the new rows, with a place of the
  -- swap file taken for each; and every page `p` that had an owner has the bytes that it had.
  pub init_process_structures-IsStore :
      0 < c.marcos_por_proceso
      → IsStore c s g
      → pages_needed c pcb.segment_table ≤ free_in c s.bitmap_swap
      → (p : ℕ)
      → (t : Memory) × (attend_kernel c (init_process_structures_memory pcb) s
          ≡ some (
            init_process_structures_memory_response
                (record pcb { segment_table = indexed s.page_tables_counter pcb.segment_table }),
            t,
          ))
        × (t.all_page_tables
            ≡ s.all_page_tables
              ++ tables_of c 0 s.page_tables_counter (length s.rows) pcb.segment_table)
        × (t.page_tables_counter ≡ s.page_tables_counter + length pcb.segment_table)
        × IsStore c t (grown g pcb.process_id (length s.rows) (length t.rows))
        × (length t.rows ≡ length s.rows + pages_needed c pcb.segment_table)
        × (free_in c t.bitmap_swap + pages_needed c pcb.segment_table ≡ free_in c s.bitmap_swap)
        × ((g.owner p ≡ none) ⊎ (contents c t p ≡ contents c s p))
  unfolding attend_kernel init_process_structures create_clock_structure set_struct_clock
  init_process_structures-IsStore h w enough p =
      let (t, e, tables, counter, k) =
        init_segments-Grown c g pid (length s.rows) 0 pcb.segment_table clocked
          (clocked-IsStore h w) enough in
      let all = Extends-trans s clocked t clocked-Extends k.extends in
      (
        t,
        rw e refl,
        tables,
        counter,
        k.store,
        k.more,
        k.fewer,
        elim (Option-cases (g.owner p)) [
          | inl free ↦ inl free
          | inr (q, o) ↦ inr (contents-Extends c s t all p (w.mapped.pages p (q, o)))
        ],
      )

-- Before any process comes.
abbrev pub nobody : Owners
nobody = record { owner = λ p. none; active = λ q. false }

times_le : (a b k : ℕ) → a ≤ b → a * k ≤ b * k
times_le a b k h = grind arith

bits_fit : (bytes size : ℕ) → bytes / size / 8 * 8 * size ≤ bytes
bits_fit bytes size =
    let frames = bytes / size in
    let whole : frames / 8 * 8 ≤ frames = omega arith in
    let fits : frames * size ≤ bytes = omega arith in
    omega (arith, times_le (frames / 8 * 8) frames size whole, fits)

-- The module starts with a store.
pub init_memory-IsStore :
    (c : MemoryConfig) (principal_memory swap_file : List ℕ)
    → length principal_memory ≡ c.tam_memoria
    → length swap_file ≡ c.tamanio_swap
    → c.marcos_por_proceso ≤ 2 ^ 16
    → IsStore c (init_memory c principal_memory swap_file) nobody
unfolding init_memory create_bitmap
init_memory-IsStore c principal_memory swap_file memory file small = record {
  sized =
      rw (length-replicate (c.tam_memoria / c.tam_pagina / 8 * 8) false, memory)
        (bits_fit c.tam_memoria c.tam_pagina);
  swap_sized =
      rw (length-replicate (c.tamanio_swap / c.tam_pagina / 8 * 8) false, file)
        (bits_fit c.tamanio_swap c.tam_pagina);
  small = small;
  mapped = record {
    pages = λ p o. absurd (cc (o.1));
    swap_apart = λ p q a b o. absurd (cc (o.1));
    frame_apart = λ p q a b o. absurd (cc (o.1));
  };
  clocks = λ q active. absurd (cc (active));
}
