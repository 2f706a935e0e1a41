-- ===== src/Tests/View.antt =====
-- A process with two pages and one frame: a word of page 0 is stored, page 1 takes the frame, page 0
-- comes back, and the word is read.
use geck.Prelude.{
  ◌+◌, ◌≤◌, length, ℕ, zero, suc, ◌%◌, ◌≡◌, ◌⊎◌, inl, inr, refl, subst, ℤ, pos, negsuc, eqb_ℤ,
  eqb_ℤ_iff, List, [], ◌∷◌, ◌++◌, Bool, true, false, Option, none, some, replicate, get_elem?,
  if◌then◌else◌, ◌>>=◌, arith,
}
use geck.Shared.Strings.{codes, strcmp_eq}
use geck.Memory.{PageRow, PageTable, ClockRow, ClockStruct, Memory, MemoryConfig}
use geck.Memory.View.{contents, Owners, HasOwner, IsPage, IsEntry, HasClock, IsStore}
use geck.Shared.Wire.{word_bytes}
use geck.Memory.{set_struct_clock}
use geck.Memory.Bitmap.{set_bit, clean_bit}
use geck.Memory.Store.{
  read_slice, write_slice, read_page_swap, write_page_swap, read_frame, write_frame, write_word,
}
use geck.Memory.Tables.{get_page_table_by_index, find_table}
use geck.Memory.Clock.{
  move_to_next_pointer, replace_by_clock, simple_search, evict, simple_clock,
  use_replacement_algorithm, put_page, add_page_to_clock_structure,
}
use geck.Memory.Access.{find_loaded, save_value_in_memory}
use geck.Memory.Handlers.{
  mov_in, mov_in_ok, mov_out, mov_out_ok, response_page_fault, choose_frame, load_page,
  solve_in_table, solve_page_fault, attend_cpu, frame_request, frame_response,
}
use geck.Memory.View.Fault.{IsMissing, CanTake, contents-solve_page_fault}
use geck.Memory.View.Write.{IsLoaded}
use geck.Memory.View.Read.{IsReadable}
use geck.Memory.View.Moves.{done, fault, contents-mov_out, mov_in-Steps-mov_out}
use geck.Shared.{Pcb, Segment}
use geck.Memory.Bitmap.{create_bitmap}
use geck.Memory.Bitmap.Free.{free_in, clean_count}
use geck.Memory.Tables.{init_memory, calculate_frames_of_segment}
use geck.Memory.Handlers.{
  init_process_structures_memory, init_process_structures_memory_response, attend_kernel,
}
use geck.Memory.View.Grow.{grown}
use geck.Memory.View.Segments.{pages_needed, indexed}
use geck.Memory.View.Init.{nobody, init_memory-IsStore, init_process_structures-IsStore}
use geck.Memory.View.Lookup.{HasIdsBelow, get_page_table_by_index-init}
use geck.Tests.Data.{config, process, segment, clock_of}

abbrev c : MemoryConfig
c = config (codes "CLOCK")

abbrev two_pages : PageTable
two_pages = record { id = pos 0; pages_list = 0 ∷ 1 ∷ []; segment_num = pos 0 }

abbrev clocked : ClockStruct → (ℤ → Option ClockStruct) → ℤ → Option ClockStruct
clocked clock rest pid = if eqb_ℤ (pos 1) pid then some clock else rest pid

abbrev row : ℤ → ℤ → Bool → Bool → Bool → PageRow
row frame position present used dirty = record {
  frame_number = frame;
  swap_position = position;
  presence = present;
  use_bit = used;
  modified = dirty;
}

-- Entry of frame 0 for a page, whose place has the same number.
abbrev in_frame : ℕ → ClockStruct
in_frame page =
    clock_of
      (record { frame_number_in_memory = pos 0; page = page; frame_number_in_swap = pos page } ∷ [])

abbrev state : PageRow → PageRow → List ℕ → List ℕ → (ℤ → Option ClockStruct) → Memory
state first second bytes file clocks = record {
  rows = first ∷ second ∷ [];
  all_page_tables = two_pages ∷ [];
  page_tables_counter = 1;
  clock_structures = clocks;
  principal_memory = bytes ++ replicate 28 0;
  swap_file = file ++ replicate 28 9;
  bitmap_swap = true ∷ true ∷ replicate 6 false;
  bitmap_memory = true ∷ replicate 7 false;
}

abbrev start : Memory
start =
    state (row (pos 0) (pos 0) true true true) (row (negsuc 0) (pos 1) false false false)
      (replicate 4 0) (replicate 4 9) (clocked (in_frame 0) (λ pid. none))

abbrev owner_of : ℕ → Option ℤ
owner_of zero = some (pos 1)
owner_of (suc zero) = some (pos 1)
owner_of (suc (suc n)) = none

abbrev owners : Owners
owners = record { owner = owner_of; active = eqb_ℤ (pos 1) }

-- A page of the two.
page_cases : (p : ℕ) → HasOwner owners p → (p ≡ 0) ⊎ (p ≡ 1)
page_cases zero o = inl refl
page_cases (suc zero) o = inr refl
page_cases (suc (suc p)) (pid, e) = absurd (cc)

start-IsPage : (p : ℕ) → HasOwner owners p → IsPage c start p
start-IsPage zero o = record {
  row = row (pos 0) (pos 0) true true true;
  position = 0;
  row_in = refl;
  position_eq = refl;
  position_in = omega arith;
  swap_bit = refl;
  place = inr (
    0,
    record {
      present = refl;
      frame_eq = refl;
      bit = refl;
      frame_in = omega arith;
      coherent = inl refl;
    },
  );
}
start-IsPage (suc zero) o = record {
  row = row (negsuc 0) (pos 1) false false false;
  position = 1;
  row_in = refl;
  position_eq = refl;
  position_in = omega arith;
  swap_bit = refl;
  place = inl refl;
}
start-IsPage (suc (suc p)) (pid, e) = absurd (cc)

start-swap_apart :
    (p q : ℕ) (a b : PageRow)
    → HasOwner owners p
    → HasOwner owners q
    → get_elem? start.rows p ≡ some a
    → get_elem? start.rows q ≡ some b
    → a.swap_position ≡ b.swap_position
    → p ≡ q
start-swap_apart zero zero a b o o' e e' h = refl
start-swap_apart (suc zero) (suc zero) a b o o' e e' h = refl
start-swap_apart zero (suc zero) a b o o' e e' h = absurd (cc)
start-swap_apart (suc zero) zero a b o o' e e' h = absurd (cc)
start-swap_apart (suc (suc p)) q a b (pid, e'') o' e e' h = absurd (cc)
start-swap_apart zero (suc (suc q)) a b o (pid, e'') e e' h = absurd (cc)
start-swap_apart (suc zero) (suc (suc q)) a b o (pid, e'') e e' h = absurd (cc)

start-frame_apart :
    (p q : ℕ) (a b : PageRow)
    → HasOwner owners p
    → HasOwner owners q
    → get_elem? start.rows p ≡ some a
    → get_elem? start.rows q ≡ some b
    → a.presence ≡ true
    → b.presence ≡ true
    → a.frame_number ≡ b.frame_number
    → p ≡ q
start-frame_apart zero zero a b o o' e e' h h' f = refl
start-frame_apart (suc zero) (suc zero) a b o o' e e' h h' f = refl
start-frame_apart zero (suc zero) a b o o' e e' h h' f = absurd (cc)
start-frame_apart (suc zero) zero a b o o' e e' h h' f = absurd (cc)
start-frame_apart (suc (suc p)) q a b (pid, e'') o' e e' h h' f = absurd (cc)
start-frame_apart zero (suc (suc q)) a b o (pid, e'') e e' h h' f = absurd (cc)
start-frame_apart (suc zero) (suc (suc q)) a b o (pid, e'') e e' h h' f = absurd (cc)

-- The clock of a state whose only entry is a page in frame 0.
one-HasClock :
    (s : Memory) (page : ℕ) (r : PageRow)
    → s.clock_structures (pos 1) ≡ some (in_frame page)
    → owners.owner page ≡ some (pos 1)
    → get_elem? s.rows page ≡ some r
    → r.presence ≡ true
    → r.frame_number ≡ pos 0
    → HasClock c s owners (pos 1)
one-HasClock s page r e o e' present frame = record {
  clock = in_frame page;
  clock_in = e;
  within = omega arith;
  pointer_in = omega arith;
  entries = λ i entry h. entries i entry h;
  distinct = λ i j a b h h' same. distinct i j a b h h';
}
  where
    entries :
        (i : ℕ) (entry : ClockRow)
        → get_elem? (in_frame page).frames_in_memory i ≡ some entry
        → IsEntry s owners (pos 1) entry
    entries zero entry h =
        subst (IsEntry s owners (pos 1)) (entry_same h)
          (record { owned = o; row = r; row_in = e'; present = present; frame_eq = frame })
      where
        entry_same : {a b : ClockRow} → some a ≡ some b → a ≡ b
        entry_same h = cc
    entries (suc i) entry h = absurd (cc)

    distinct :
        (i j : ℕ) (a b : ClockRow)
        → get_elem? (in_frame page).frames_in_memory i ≡ some a
        → get_elem? (in_frame page).frames_in_memory j ≡ some b
        → i ≡ j
    distinct zero zero a b h h' = refl
    distinct (suc i) j a b h h' = absurd (cc)
    distinct zero (suc j) a b h h' = absurd (cc)

start-IsStore : IsStore c start owners
start-IsStore = record {
  sized = omega arith;
  swap_sized = omega arith;
  small = omega arith;
  mapped = record {
    pages = start-IsPage;
    swap_apart = start-swap_apart;
    frame_apart = start-frame_apart;
  };
  clocks = λ pid active.
      subst (HasClock c start owners) ((eqb_ℤ_iff (pos 1) pid).0 active)
        (one-HasClock start 0 _ refl refl refl refl refl);
}

-- The word is in page 0; then page 1 has the frame; then page 0 has it again.
abbrev written : Memory
written =
    state (row (pos 0) (pos 0) true true true) (row (negsuc 0) (pos 1) false false false)
      (77 ∷ 0 ∷ 0 ∷ 0 ∷ []) (replicate 4 9) (clocked (in_frame 0) (λ pid. none))

abbrev swapped : Memory
swapped =
    state (row (pos 0) (pos 0) false false false) (row (pos 0) (pos 1) true true false)
      (replicate 4 9) (77 ∷ 0 ∷ 0 ∷ 0 ∷ [])
      (clocked (in_frame 1) (clocked (in_frame 0) (clocked (in_frame 0) (λ pid. none))))

abbrev returned : Memory
returned =
    state (row (pos 0) (pos 0) true true false) (row (pos 0) (pos 1) false false false)
      (77 ∷ 0 ∷ 0 ∷ 0 ∷ []) (77 ∷ 0 ∷ 0 ∷ 0 ∷ [])
      (clocked (in_frame 0) (clocked (in_frame 1) swapped.clock_structures))

start-IsLoaded : IsLoaded c start owners (pos 0) 0 0
unfolding get_page_table_by_index find_table
start-IsLoaded = record {
  table = two_pages;
  table_in = refl;
  position = 0;
  page_in = refl;
  owned = ((pos 1, refl), ((pos 1, refl), tt));
  row = row (pos 0) (pos 0) true true true;
  row_in = refl;
  holds = (refl, refl);
  fits = omega arith;
}

mov_out_runs : attend_cpu c (mov_out (pos 0) 77 (pos 0) (pos 1)) start ≡ some (mov_out_ok, written)
unfolding attend_cpu save_value_in_memory get_page_table_by_index find_table find_loaded write_word
    write_slice
mov_out_runs = refl

fault_runs :
    solve_page_fault c (process []) (pos 0) (pos 1) written
    ≡ some (response_page_fault (process []), swapped)
unfolding solve_page_fault solve_in_table get_page_table_by_index find_table choose_frame
    use_replacement_algorithm strcmp_eq simple_clock simple_search move_to_next_pointer evict
    replace_by_clock read_frame write_page_swap write_slice read_slice clean_bit load_page
    read_page_swap write_frame set_bit add_page_to_clock_structure put_page set_struct_clock
fault_runs = refl

fault_back_runs :
    solve_page_fault c (process []) (pos 0) (pos 0) swapped
    ≡ some (response_page_fault (process []), returned)
unfolding solve_page_fault solve_in_table get_page_table_by_index find_table choose_frame
    use_replacement_algorithm strcmp_eq simple_clock simple_search move_to_next_pointer evict
    replace_by_clock read_frame write_page_swap write_slice read_slice clean_bit load_page
    read_page_swap write_frame set_bit add_page_to_clock_structure put_page set_struct_clock
fault_back_runs = refl

start-IsMissing : IsMissing start owners (process []) (pos 0) (pos 1) 1
unfolding get_page_table_by_index find_table
start-IsMissing = record {
  segment = segment;
  table = two_pages;
  row = row (negsuc 0) (pos 1) false false false;
  segment_in = refl;
  table_in = refl;
  page_in = refl;
  row_in = refl;
  absent = refl;
  owned = refl;
  active = refl;
}

start-CanTake : CanTake c start owners (pos 1) (start-IsStore.clocks (pos 1) start-IsMissing.active)
unfolding strcmp_eq start-IsStore one-HasClock
start-CanTake = inl (refl, inr refl)

written-IsMissing : IsMissing written owners (process []) (pos 0) (pos 1) 1
unfolding get_page_table_by_index find_table
written-IsMissing = record {
  segment = segment;
  table = two_pages;
  row = row (negsuc 0) (pos 1) false false false;
  segment_in = refl;
  table_in = refl;
  page_in = refl;
  row_in = refl;
  absent = refl;
  owned = refl;
  active = refl;
}

swapped-IsMissing : IsMissing swapped owners (process []) (pos 0) (pos 0) 0
unfolding get_page_table_by_index find_table
swapped-IsMissing = record {
  segment = segment;
  table = two_pages;
  row = row (pos 0) (pos 0) false false false;
  segment_in = refl;
  table_in = refl;
  page_in = refl;
  row_in = refl;
  absent = refl;
  owned = refl;
  active = refl;
}

written-HasClock : HasClock c written owners (pos 1)
written-HasClock =
    one-HasClock written 0 (row (pos 0) (pos 0) true true true) refl refl refl refl refl

swapped-HasClock : HasClock c swapped owners (pos 1)
swapped-HasClock =
    one-HasClock swapped 1 (row (pos 0) (pos 1) true true false) refl refl refl refl refl

written-CanTake : CanTake c written owners (pos 1) written-HasClock
unfolding strcmp_eq written-HasClock one-HasClock
written-CanTake = inl (refl, inr refl)

swapped-CanTake : CanTake c swapped owners (pos 1) swapped-HasClock
unfolding strcmp_eq swapped-HasClock one-HasClock
swapped-CanTake = inl (refl, inr refl)

returned-IsReadable : IsReadable c returned owners (process []) (pos 0) (pos 0) 0 0
unfolding get_page_table_by_index find_table
returned-IsReadable = record {
  segment = segment;
  table = two_pages;
  row = row (pos 0) (pos 0) true true false;
  segment_in = refl;
  table_in = refl;
  page_in = refl;
  row_in = refl;
  holds = (refl, refl);
  owned = refl;
  active = refl;
  fits = omega arith;
}

contents-mov_out_example :
    (t : Memory) × (attend_cpu c (mov_out (pos 0) 77 (pos 0) (pos 1)) start ≡ some (mov_out_ok, t))
    × IsStore c t owners
    × (contents c t 0 ≡ (contents c start 0 >>= λ part. write_slice part (0 % 4) (word_bytes 77)))
contents-mov_out_example =
    contents-mov_out c start owners (pos 0) 0 0 77 (pos 1) start-IsStore start-IsLoaded 0
      (pos 1, refl)

contents-solve_page_fault_example :
    (frame : ℕ) × (t : Memory) × (solve_page_fault c (process []) (pos 0) (pos 1) start
      ≡ some (response_page_fault (process []), t))
    × IsStore c t owners
    × (contents c t 0 ≡ contents c start 0)
    × (attend_cpu c (frame_request (process []) (pos 1) (pos 0)) t
        ≡ some (frame_response (pos frame), t))
contents-solve_page_fault_example =
    contents-solve_page_fault c start owners (process []) (pos 0) (pos 1) 1 start-IsStore
      start-IsMissing start-CanTake 0 (pos 1, refl)

mov_in-mov_out_later_example :
    (after : Memory) × (attend_cpu c (mov_in (pos 0) (process []) (pos 0) (pos 0)) returned
      ≡ some (mov_in_ok 77, after))
mov_in-mov_out_later_example =
    mov_in-Steps-mov_out c owners start written returned (pos 0) 0 0 77 (pos 1) (process []) (pos 0)
      (pos 0) 0 start-IsStore start-IsLoaded (omega arith) mov_out_runs
      (fault (process []) (pos 0) (pos 1) 1 (response_page_fault (process [])) written-HasClock
        written-IsMissing written-CanTake fault_runs
        (fault (process []) (pos 0) (pos 0) 0 (response_page_fault (process [])) swapped-HasClock
          swapped-IsMissing swapped-CanTake fault_back_runs done))
      returned-IsReadable refl

-- A process of two pages, when the module has just started.
abbrev fresh : Memory
fresh = init_memory c (replicate 32 0) (replicate 32 9)

abbrev newcomer : Pcb
newcomer = record (process []) {
  segment_table = record { index_page = negsuc 0; number = pos 0; size = pos 7 } ∷ [];
}

fresh-IsStore : IsStore c fresh nobody
fresh-IsStore = init_memory-IsStore c (replicate 32 0) (replicate 32 9) refl refl (omega arith)

newcomer_fits : pages_needed c newcomer.segment_table ≤ free_in c fresh.bitmap_swap
unfolding calculate_frames_of_segment init_memory create_bitmap clean_count
newcomer_fits = omega arith

init_process_structures_example :
    (t : Memory) × (attend_kernel c (init_process_structures_memory newcomer) fresh
      ≡ some (
        init_process_structures_memory_response
            (record newcomer { segment_table = indexed 0 newcomer.segment_table }),
        t,
      ))
    × (t.all_page_tables ≡ record { id = pos 0; pages_list = 0 ∷ 1 ∷ []; segment_num = pos 0 } ∷ [])
    × (t.page_tables_counter ≡ 1)
    × IsStore c t (grown nobody (pos 1) (length fresh.rows) (length t.rows))
    × (length t.rows ≡ length fresh.rows + 2)
    × (free_in c t.bitmap_swap + 2 ≡ free_in c fresh.bitmap_swap)
    × ((nobody.owner 0 ≡ none) ⊎ (contents c t 0 ≡ contents c fresh 0))
unfolding calculate_frames_of_segment init_memory
init_process_structures_example =
    init_process_structures-IsStore c nobody fresh newcomer (omega arith) fresh-IsStore
      newcomer_fits 0

get_page_table_by_index_example :
    (segments : List Segment) × (t : Memory) × (answered : Segment) × (table : PageTable)
    × (attend_kernel c (init_process_structures_memory newcomer) fresh
        ≡ some (
          init_process_structures_memory_response (record newcomer { segment_table = segments }),
          t,
        ))
    × (get_elem? segments 0 ≡ some answered)
    × (get_page_table_by_index answered.index_page t ≡ some table)
    × (table.segment_num ≡ pos 0)
    × (table.pages_list ≡ 0 ∷ 1 ∷ [])
    × HasIdsBelow t.page_tables_counter t.all_page_tables
unfolding calculate_frames_of_segment init_memory
get_page_table_by_index_example =
    get_page_table_by_index-init c nobody fresh newcomer 0
      (record { index_page = negsuc 0; number = pos 0; size = pos 7 }) (omega arith) fresh-IsStore
      newcomer_fits tt refl
