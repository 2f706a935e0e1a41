-- ===== src/Memory/View/Choose.antt =====
-- A frame for a page: `choose_frame` leaves a store but for the process's clock, and the frame that
-- it returns is no page's.
use geck.Prelude.{
  ℕ, ◌+◌, ◌*◌, ◌≤◌, ◌<◌, ◌≡◌, ◌≢◌, ◌⊎◌, inl, inr, refl, sym, ap, ◌∙◌, subst, ℤ, pos, List, Bool,
  true, false, some, length, get_elem?, get_elem?-lt, ==_iff, pos_same, arith, ◌==◌,
}
use geck.Memory.{MemoryConfig, PageRow, ClockRow, ClockStruct, Memory}
use geck.Memory.Bitmap.{find_page_free}
use geck.Memory.Bitmap.Free.{find_page_free_clean}
use geck.Memory.Handlers.{choose_frame}
use geck.Memory.Handlers.PageFault.{IsAlgorithm, HasFrame, replaced}
use geck.Memory.View.{contents, Owners, HasOwner, IsPages, IsEntry, HasClock, IsStore, Distinct}
use geck.Memory.View.Change.{same_row, IsPages-Changes}
use geck.Memory.View.Clocks.{store-IsClock}
use geck.Memory.View.Evict.{
  swap_bits_kept, evict-Changes, contents-evict, evict_unused, evict_absent, evict-HasClock,
  evict-IsEntry,
}

-- The clock's entries are within the number of a process when one more page has the frame.
abbrev pub HasRoom : MemoryConfig → List ClockRow → ℕ → Type 0
HasRoom c frames frame =
    (length frames < c.marcos_por_proceso)
    ⊎ ((i : ℕ) × (entry : ClockRow) × (get_elem? frames i ≡ some entry)
        × (entry.frame_number_in_memory ≡ pos frame)
        × (length frames ≤ c.marcos_por_proceso))

-- What `choose_frame` leaves for the process `pid`.
pub record Chosen (c : MemoryConfig) (s : Memory) (g : Owners) (pid : ℤ) : Type 0 where
  pub frame : ℕ
  pub after : Memory
  pub result : choose_frame c pid s ≡ some (pos frame, after)
  pub frame_in : HasFrame c after frame
  pub mapped : IsPages c after g
  pub contents_same : (p : ℕ) → HasOwner g p → contents c after p ≡ contents c s p
  pub unused :
      (p : ℕ) (a : PageRow)
      → HasOwner g p
      → get_elem? after.rows p ≡ some a
      → a.presence ≡ true
      → a.frame_number ≢ pos frame
  pub absent_kept :
      (p : ℕ) (a : PageRow)
      → HasOwner g p
      → get_elem? s.rows p ≡ some a
      → a.presence ≡ false
      → (b : PageRow) × (get_elem? after.rows p ≡ some b) × (b.presence ≡ false)
  pub clock : ClockStruct
  pub clock_in : after.clock_structures pid ≡ some clock
  pub room : HasRoom c clock.frames_in_memory frame
  pub pointer_in : clock.pointer < c.marcos_por_proceso
  pub entries :
      (i : ℕ) (entry : ClockRow)
      → get_elem? clock.frames_in_memory i ≡ some entry
      → entry.frame_number_in_memory ≢ pos frame
      → IsEntry after g pid entry
  pub distinct : Distinct clock.frames_in_memory
  pub others : (other : ℤ) → other ≢ pid → HasClock c s g other → HasClock c after g other
  pub tables_kept : after.all_page_tables ≡ s.all_page_tables
  pub bits_length : length after.bitmap_memory ≡ length s.bitmap_memory
  pub swap_bits : after.bitmap_swap ≡ s.bitmap_swap
  pub swap_length : length after.swap_file ≡ length s.swap_file
  pub memory_length : length after.principal_memory ≡ length s.principal_memory

pub frame_fits : (size n bits bytes : ℕ) → n < bits → bits * size ≤ bytes → n * size + size ≤ bytes
frame_fits size n bits bytes lt h = grind arith

pub not_both :
    (bits : List Bool) (m n : ℕ)
    → get_elem? bits m ≡ some true
    → get_elem? bits n ≡ some false
    → m ≢ n
not_both bits m n h h' e = cc (sym (subst (λ k. get_elem? bits k ≡ some true) e h) ∙ h')

module _ (c : MemoryConfig) (s : Memory) (g : Owners) (w : IsStore c s g) (pid : ℤ)
    (h : HasClock c s g pid) where
  -- A process with all its frames loses a page.
  pub full-Chosen :
      IsAlgorithm c → length h.clock.frames_in_memory ≡ c.marcos_por_proceso → Chosen c s g pid
  unfolding choose_frame
  full-Chosen algorithm full =
      let r =
        replaced c s pid h.clock (store-IsClock c s g w pid h full) h.pointer_in algorithm
          h.clock_in in
      let test : (length h.clock.frames_in_memory == c.marcos_por_proceso) ≡ true =
        (==_iff _ _).1 full in
      record {
        frame = r.sound.frame;
        after = r.after;
        result = rw (h.clock_in, test) (r.result ∙ ap (λ f. some (f, r.after)) r.sound.entry_eq);
        frame_in =
            rw (r.evicted.bits_length, r.evicted.memory_kept) (r.sound.bit_in, r.sound.frame_in);
        mapped =
            IsPages-Changes c g s r.after r.entry.page (evict-Changes c s g w pid h _ r) w.mapped;
        contents_same = contents-evict c s g w pid h _ r;
        unused = evict_unused c s g w pid h _ r;
        absent_kept = evict_absent c s g w pid h _ r;
        clock = record h.clock { pointer = r.next };
        clock_in = r.clock_after;
        room = inr (r.index, r.entry, r.entry_in, r.sound.entry_eq, h.within);
        pointer_in = r.next_in;
        entries = evict-IsEntry c s g w pid h _ r;
        distinct = h.distinct;
        others = evict-HasClock c s g w pid h _ r;
        tables_kept = r.evicted.tables_kept;
        bits_length = r.evicted.bits_length;
        swap_bits = swap_bits_kept c s g w pid h _ r;
        swap_length = r.evicted.swap_length;
        memory_length = ap length r.evicted.memory_kept;
      }

  -- A process with fewer gets the frame that is found.
  pub free-Chosen :
      (n : ℕ)
      → length h.clock.frames_in_memory ≢ c.marcos_por_proceso
      → find_page_free c s.bitmap_memory ≡ some (pos n)
      → Chosen c s g pid
  unfolding choose_frame
  free-Chosen n short found =
      let clean = find_page_free_clean c s.bitmap_memory n found in
      let bit = get_elem?-lt s.bitmap_memory n false clean in
      record {
        frame = n;
        after = s;
        result = rw (h.clock_in, found) (ground arith);
        frame_in = (
          bit,
          frame_fits c.tam_pagina n (length s.bitmap_memory) (length s.principal_memory) bit
              w.sized,
        );
        mapped = w.mapped;
        contents_same = λ p o. refl;
        unused = λ p a o e present here.
            let x = w.mapped.pages p o in
            let same : x.row ≡ a = same_row s.rows p x.row a x.row_in e in
            elim x.place [
              | inl absent ↦ absurd (cc (absent, ap (λ (y : PageRow). y.presence) same, present))
              | inr (frame, r) ↦ absurd (
                  not_both s.bitmap_memory frame n r.bit clean
                    (pos_same (sym r.frame_eq ∙ ap (λ (y : PageRow). y.frame_number) same ∙ here)))
            ];
        absent_kept = λ p a o e absent. (a, e, absent);
        clock = h.clock;
        clock_in = h.clock_in;
        room = inl (omega (arith, short, h.within));
        pointer_in = h.pointer_in;
        entries = λ i entry e ne. h.entries i entry e;
        distinct = h.distinct;
        others = λ other ne k. k;
        tables_kept = refl;
        bits_length = refl;
        swap_bits = refl;
        swap_length = refl;
        memory_length = refl;
      }
