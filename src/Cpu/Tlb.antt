-- ===== src/Cpu/Tlb.antt =====
-- The TLB of cpu/src/cpu.c. `gettimeofday` is the argument `now`.
pub mod Contents
use geck.Prelude.{
  ℕ, zero, suc, ℤ, negsuc, eqb_ℤ, List, [], ◌∷◌, ◌++◌, Bool, ◌&&◌, Option, none, some,
  if◌then◌else◌, length, ltb, ◌==◌, ◌>>=◌,
}
use geck.Shared.Strings.{Text, codes, strcmp_eq}
use geck.Cpu.{Timeval, RowTlb, CpuConfig, Commons}

abbrev pub new_row : Timeval → ℤ → ℤ → ℤ → ℤ → RowTlb
new_row now process_id segment page frame = record {
  process_id = process_id;
  segment = segment;
  page = page;
  frame = frame;
  init_time = now;
  last_reference = now;
}

unfoldable pub add_row_to_tlb : Timeval → ℤ → ℤ → ℤ → ℤ → List RowTlb → List RowTlb
add_row_to_tlb now process_id segment page frame tlb =
    tlb ++ (new_row now process_id segment page frame ∷ [])

-- The rows that `init_tlb` adds, each at its own time.
unfoldable pub init_tlb : List Timeval → List RowTlb → List RowTlb
unfolding add_row_to_tlb
init_tlb [] tlb = tlb
init_tlb (now ∷ times) tlb =
    init_tlb times (add_row_to_tlb now (negsuc 0) (negsuc 0) (negsuc 0) (negsuc 0) tlb)

unfoldable pub compare_last_reference : RowTlb → RowTlb → Bool
compare_last_reference first second =
    if first.last_reference.tv_sec == second.last_reference.tv_sec
    then ltb first.last_reference.tv_usec second.last_reference.tv_usec
    else ltb first.last_reference.tv_sec second.last_reference.tv_sec

-- `list_remove(TLB, 0)`; of an empty list it is a fault.
abbrev pub remove_first : List RowTlb → Option (List RowTlb)
remove_first [] = none
remove_first (row ∷ rest) = some rest

-- The replacement of `add_to_tlb`: with a name that is neither FIFO nor LRU nothing goes.
unfoldable pub make_room : Commons → CpuConfig → List RowTlb → Option (List RowTlb)
make_room lib c tlb =
    if strcmp_eq c.reemplazo_tlb (codes "FIFO")
    then remove_first tlb
    else if strcmp_eq c.reemplazo_tlb (codes "LRU")
    then remove_first (lib.list_sort compare_last_reference tlb)
    else some tlb

unfoldable pub add_to_tlb :
    Commons → CpuConfig → Timeval → ℤ → ℤ → ℤ → ℤ → List RowTlb → Option (List RowTlb)
add_to_tlb lib c now process_id segment page frame tlb =
    if c.entradas_tlb == 0
    then some tlb
    else if ltb (length tlb) c.entradas_tlb
    then some (add_row_to_tlb now process_id segment page frame tlb)
    else if length tlb == c.entradas_tlb
    then (make_room lib c tlb >>= λ rest.
        some (add_row_to_tlb now process_id segment page frame rest))
    else some tlb

abbrev pub is_row_of : ℤ → ℤ → ℤ → RowTlb → Bool
is_row_of page segment pid row =
    eqb_ℤ row.page page && eqb_ℤ row.segment segment && eqb_ℤ row.process_id pid

-- The loop of `present_in_tlb`, with the rounds left: the frame or -1, and the rows with the new
-- time of reference. A list that is shorter than the rounds is read past its end.
unfoldable pub present_in_rows : Timeval → ℕ → ℤ → ℤ → ℤ → List RowTlb → Option (ℤ × List RowTlb)
present_in_rows now zero page segment pid rows = some (negsuc 0, rows)
present_in_rows now (suc n) page segment pid [] = none
present_in_rows now (suc n) page segment pid (row ∷ rest) =
    let later = present_in_rows now n page segment pid rest >>= λ r. some (r.0, row ∷ r.1) in
    if is_row_of page segment pid row
    then some (row.frame, record row { last_reference = now } ∷ rest)
    else later

unfoldable pub present_in_tlb :
    CpuConfig → Timeval → ℤ → ℤ → ℤ → List RowTlb → Option (ℤ × List RowTlb)
present_in_tlb c now page segment pid tlb = present_in_rows now c.entradas_tlb page segment pid tlb
