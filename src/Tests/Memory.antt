-- ===== src/Tests/Memory.antt =====
-- The theorems on the memory module at small states.
use geck.Prelude.{
  All, ℕ, zero, suc, ◌+◌, ◌*◌, ◌/◌, ◌≤◌, ◌<◌, ◌≡◌, ◌⊎◌, inr, refl, sym, subst, pos, negsuc, [], ◌∷◌,
  true, false, none, some, get_elem?, replicate, arith,
}
use geck.Shared.Strings.{codes}
use geck.Memory.{PageRow, ClockRow, Memory}
use geck.Memory.Bitmap.{find_page_free, find_from}
use geck.Memory.Bitmap.Free.{find_page_free_lem, find_page_free_overrun, IsFirstFree, AllSet}
use geck.Memory.Store.{read_frame, read_page_swap}
use geck.Memory.Tables.{
  free_pages, get_page_table_by_index, find_table, calculate_frames_of_segment,
}
use geck.Memory.Tables.Freed.{swap_bit, free_pages_lem}
use geck.Memory.Tables.Build.{calculate_frames_of_segment_lem}
use geck.Memory.Clock.{simple_clock, modified_clock}
use geck.Memory.Clock.Halting.{IsSound, IsClock}
use geck.Memory.Clock.Victim.{Replaces, simple_clock-Replaces, modified_clock-Replaces}
use geck.Memory.Access.{save_value_in_memory}
use geck.Memory.Access.Marks.{IsPresent, Holds, save_value_unloaded}
use geck.Memory.Handlers.{
  frame_response, frame_request, mov_in, mov_in_ok, mov_out, mov_out_ok, response_page_fault,
  attend_cpu, solve_page_fault,
}
use geck.Memory.Handlers.PageFault.{IsAbsent, CanHaveFrame, solve_page_fault_lem}
use geck.Memory.Handlers.Moves.{mov_in-mov_out}
use geck.Tests.Data.{
  config, process, segment, table, clock_of, absent_row, present_row, entry, empty_memory,
  loaded_memory,
}

empty_memory-IsAbsent :
    IsAbsent
      (config (codes "CLOCK"))
      empty_memory
      (process [])
      (pos 0)
      (pos 0)
      0
      absent_row
      (clock_of [])
unfolding get_page_table_by_index find_table
empty_memory-IsAbsent = record {
  segment = segment;
  table = table;
  position = 0;
  segment_in = refl;
  table_in = refl;
  page_in = refl;
  row_in = refl;
  position_eq = refl;
  position_in = omega arith;
  clock_in = refl;
  away = λ i e h. absurd (cc);
  apart = λ i e other h h'. absurd (cc);
}

empty_memory-CanHaveFrame : CanHaveFrame (config (codes "CLOCK")) empty_memory (clock_of [])
unfolding find_page_free find_from
empty_memory-CanHaveFrame = inr (0, (λ e. omega arith), refl, (omega arith, omega arith))

solve_page_fault_example :
    (frame : ℕ) × (t : Memory) × (solve_page_fault
        (config (codes "CLOCK"))
        (process [])
        (pos 0)
        (pos 0)
        empty_memory
      ≡ some (response_page_fault (process []), t))
    × (get_elem? t.bitmap_memory frame ≡ some true)
    × (read_frame (config (codes "CLOCK")) (pos frame) t
        ≡ read_page_swap (config (codes "CLOCK")) (pos 0) empty_memory)
    × (attend_cpu (config (codes "CLOCK")) (frame_request (process []) (pos 0) (pos 0)) t
        ≡ some (frame_response (pos frame), t))
solve_page_fault_example =
    solve_page_fault_lem (config (codes "CLOCK")) empty_memory (process []) (pos 0) (pos 0) 0
      absent_row (clock_of []) empty_memory-IsAbsent empty_memory-CanHaveFrame

some_same : {A : Type 0} {a b : A} → some a ≡ some b → a ≡ b
some_same e = cc

entry-IsSound :
    (i : ℕ) (e : ClockRow) (row : PageRow)
    → get_elem? (entry ∷ []) i ≡ some e
    → get_elem? (present_row ∷ []) e.page ≡ some row
    → IsSound (config (codes "CLOCK")) loaded_memory e row
entry-IsSound zero e row h h' =
    let same : entry ≡ e = cc in
    let same_row : present_row ≡ row =
      some_same
        (subst (λ (x : ClockRow). get_elem? (present_row ∷ []) x.page ≡ some row) (sym same) h') in
    subst (λ (x : ClockRow). IsSound (config (codes "CLOCK")) loaded_memory x row) same
      (subst (λ (x : PageRow). IsSound (config (codes "CLOCK")) loaded_memory entry x) same_row
        (record {
          frame = 0;
          position = 0;
          frame_eq = refl;
          entry_eq = refl;
          position_eq = refl;
          bit_in = omega arith;
          frame_in = omega arith;
          position_in = omega arith;
          used_before = true;
          origin = refl;
          coherent = λ clean. absurd (cc);
        }))
entry-IsSound (suc i) e row h h' = absurd (cc)

loaded-IsClock : IsClock (config (codes "CLOCK")) loaded_memory (entry ∷ []) (present_row ∷ [])
loaded-IsClock = record {
  full = refl;
  some_frame = omega arith;
  small = omega arith;
  pages_in = (omega arith, tt);
  sound = entry-IsSound;
  others = λ page away. refl;
}

simple_clock_example :
    Replaces
      (config (codes "CLOCK"))
      (pos 1)
      loaded_memory
      (clock_of (entry ∷ []))
      (simple_clock (config (codes "CLOCK")) (pos 1) loaded_memory)
simple_clock_example =
    simple_clock-Replaces (config (codes "CLOCK")) (pos 1) loaded_memory (clock_of (entry ∷ []))
      refl loaded-IsClock (omega arith)

modified_clock_example :
    Replaces
      (config (codes "CLOCK"))
      (pos 1)
      loaded_memory
      (clock_of (entry ∷ []))
      (modified_clock (config (codes "CLOCK")) (pos 1) loaded_memory)
modified_clock_example =
    modified_clock-Replaces (config (codes "CLOCK")) (pos 1) loaded_memory (clock_of (entry ∷ []))
      refl loaded-IsClock (omega arith)

loaded-IsPresent :
    IsPresent (config (codes "CLOCK")) loaded_memory (process []) (pos 0) (pos 0) (0 / 4)
unfolding get_page_table_by_index find_table
loaded-IsPresent = record {
  segment = segment;
  table = table;
  index = 0;
  position = 0;
  page = 0;
  row = present_row;
  clock = clock_of (entry ∷ []);
  segment_in = refl;
  table_in = refl;
  index_eq = refl;
  index_in = refl;
  number_eq = refl;
  page_in = refl;
  row_in = refl;
  holds = (refl, refl);
  pages_in = (omega arith, tt);
  clock_in = refl;
  entries_in = (omega arith, tt);
}

mov_in-mov_out_example :
    (t u : Memory) × (marked : ℕ) × (row : PageRow) × (attend_cpu
        (config (codes "CLOCK"))
        (mov_out (pos 0) 77 loaded-IsPresent.segment.index_page (pos 1))
        loaded_memory
      ≡ some (mov_out_ok, t))
    × (attend_cpu (config (codes "CLOCK")) (mov_in (pos 0) (process []) (pos 0) (pos 0)) t
        ≡ some (mov_in_ok 77, u))
    × (get_elem? t.rows marked ≡ some row)
    × Holds row (pos (0 / 4))
    × (row.modified ≡ true)
mov_in-mov_out_example =
    mov_in-mov_out (config (codes "CLOCK")) loaded_memory (process []) (pos 0) (pos 0) 0 77
      loaded-IsPresent (pos 1) (omega arith) (omega arith)

save_value_example :
    save_value_in_memory (config (codes "CLOCK")) (pos 5) 1 (pos 0) empty_memory ≡ none
unfolding get_page_table_by_index find_table
save_value_example =
    save_value_unloaded (config (codes "CLOCK")) 5 1 (pos 0) empty_memory table refl
      absent_everywhere
  where
    absent_everywhere :
        (i page : ℕ) (row : PageRow)
        → get_elem? (0 ∷ []) i ≡ some page
        → get_elem? (absent_row ∷ []) page ≡ some row
        → ¬ Holds row (pos 1)
    absent_everywhere zero page row h h' holds =
        let same : 0 ≡ page = some_same h in
        let same_row : absent_row ≡ row =
          some_same (subst (λ x. get_elem? (absent_row ∷ []) x ≡ some row) (sym same) h') in
        absurd (subst (λ (x : PageRow). Holds x (pos 1) → ⊥) same_row (λ held. cc) holds)
    absent_everywhere (suc i) page row h h' holds = absurd (cc)

find_page_free_example :
    ((j : ℕ) × (j < 8)
      × IsFirstFree (true ∷ replicate 7 false) j
      × (find_page_free (config (codes "CLOCK")) (true ∷ replicate 7 false) ≡ some (pos j)))
    ⊎ (AllSet 8 (true ∷ replicate 7 false)
        × (find_page_free (config (codes "CLOCK")) (true ∷ replicate 7 false) ≡ some (negsuc 0)))
find_page_free_example =
    find_page_free_lem (config (codes "CLOCK")) (true ∷ replicate 7 false) (omega arith)

find_page_free_overrun_example : find_page_free (config (codes "CLOCK")) (true ∷ []) ≡ none
find_page_free_overrun_example =
    find_page_free_overrun (config (codes "CLOCK")) (true ∷ []) (refl, tt) (omega arith)

calculate_frames_example :
    (pages : ℕ) × (calculate_frames_of_segment (config (codes "CLOCK")) (pos 9) ≡ pos pages)
    × (9 ≤ pages * 4)
    × (pages * 4 < 9 + 4)
calculate_frames_example = calculate_frames_of_segment_lem (config (codes "CLOCK")) 9 (omega arith)

free_pages_example :
    (after : Memory) × (free_pages (0 ∷ []) loaded_memory ≡ some after)
    × (after.rows ≡ loaded_memory.rows)
    × All (λ page. swap_bit after page ≡ some false) (0 ∷ [])
free_pages_example = free_pages_lem (0 ∷ []) loaded_memory (
  record {
    row = present_row;
    position = 0;
    row_in = refl;
    position_eq = refl;
    position_in = omega arith;
    frame_in = inr (refl, 0, refl, omega arith);
  },
  tt,
)
