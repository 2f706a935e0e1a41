-- ===== src/Cpu/Tlb/Contents.antt =====
-- The rows of the TLB of cpu/src/cpu.c: searching it and adding to it.
use geck.Prelude.{
  ℕ, zero, suc, ◌<◌, ◌==◌, ltb, ℤ, negsuc, List, [], ◌∷◌, ◌++◌, length, All, some, true, false,
  Bool-cases, ◌≡◌, ◌⊎◌, inl, inr, refl, ap, arith, length-append, eqb_ℤ_iff, subst,
}
use geck.Shared.Strings.{codes, strcmp_eq}
use geck.Cpu.{Timeval, RowTlb, CpuConfig, Commons}
use geck.Cpu.Tlb.{
  new_row, add_row_to_tlb, remove_first, make_room, add_to_tlb, is_row_of, present_in_rows,
  present_in_tlb, compare_last_reference,
}

-- No row is the page's.
abbrev pub IsMissing : ℤ → ℤ → ℤ → List RowTlb → Type 0
IsMissing page segment pid rows = All (λ row. is_row_of page segment pid row ≡ false) rows

-- The first row of the page, between those before and after it.
pub record Hit (page segment pid : ℤ) (rows : List RowTlb) : Type 0 where
  pub before : List RowTlb
  pub row : RowTlb
  pub after : List RowTlb
  pub split : rows ≡ before ++ row ∷ after
  pub missing : IsMissing page segment pid before
  pub found : is_row_of page segment pid row ≡ true

pub search-Hit :
    (now : Timeval) (page segment pid : ℤ) (before : List RowTlb) (row : RowTlb)
    (after : List RowTlb) (n : ℕ)
    → IsMissing page segment pid before
    → is_row_of page segment pid row ≡ true
    → length (before ++ row ∷ after) ≡ n
    → present_in_rows now n page segment pid (before ++ row ∷ after)
      ≡ some (row.frame, before ++ record row { last_reference = now } ∷ after)
unfolding present_in_rows
search-Hit now page segment pid [] row after zero missing found long = absurd (omega arith)
search-Hit now page segment pid [] row after (suc n) missing found long = rw found refl
search-Hit now page segment pid (b ∷ before) row after zero missing found long =
    absurd (omega arith)
search-Hit now page segment pid (b ∷ before) row after (suc n) missing found long =
    rw (missing.0, search-Hit now page segment pid before row after n missing.1 found (omega arith))
      refl

pub search-missing :
    (now : Timeval) (page segment pid : ℤ) (rows : List RowTlb) (n : ℕ)
    → IsMissing page segment pid rows
    → length rows ≡ n
    → present_in_rows now n page segment pid rows ≡ some (negsuc 0, rows)
unfolding present_in_rows
search-missing now page segment pid [] zero missing long = refl
search-missing now page segment pid [] (suc n) missing long = absurd (omega arith)
search-missing now page segment pid (b ∷ rows) zero missing long = absurd (omega arith)
search-missing now page segment pid (b ∷ rows) (suc n) missing long =
    rw (missing.0, search-missing now page segment pid rows n missing.1 (omega arith)) refl

pub IsMissing-or-Hit :
    (page segment pid : ℤ) (rows : List RowTlb)
    → IsMissing page segment pid rows ⊎ Hit page segment pid rows
IsMissing-or-Hit page segment pid [] = inl tt
IsMissing-or-Hit page segment pid (row ∷ rows) =
    let rest = IsMissing-or-Hit page segment pid rows in
    elim (Bool-cases (is_row_of page segment pid row)) [
      | inl found ↦ inr (record {
        before = [];
        row = row;
        after = rows;
        split = refl;
        missing = tt;
        found = found;
      })
      | inr other ↦ elim rest [
        | inl missing ↦ inl (other, missing)
        | inr h ↦ inr (record {
          before = row ∷ h.before;
          row = h.row;
          after = h.after;
          split = ap (◌∷◌ row) h.split;
          missing = (other, h.missing);
          found = h.found;
        })
      ]
    ]

-- On a TLB with as many rows as the configuration has entries, a search never reads past the end.
-- Either no row is the page's, the answer is -1 and nothing changes; or the answer is the frame of
-- the page's first row, and only that row's time of reference changes.
pub present_in_tlb_lem :
    (c : CpuConfig) (now : Timeval) (page segment pid : ℤ) (tlb : List RowTlb)
    → length tlb ≡ c.entradas_tlb
    → (IsMissing page segment pid tlb
        × (present_in_tlb c now page segment pid tlb ≡ some (negsuc 0, tlb)))
      ⊎ ((h : Hit page segment pid tlb) × (present_in_tlb c now page segment pid tlb
            ≡ some (h.row.frame, h.before ++ record h.row { last_reference = now } ∷ h.after)))
unfolding present_in_tlb
present_in_tlb_lem c now page segment pid tlb long = elim (IsMissing-or-Hit page segment pid tlb) [
  | inl missing ↦ inl (missing, search-missing now page segment pid tlb c.entradas_tlb missing long)
  | inr h ↦ inr (
    h,
    rw h.split (
        search-Hit now page segment pid h.before h.row h.after c.entradas_tlb h.missing h.found
          (rw⁻¹ h.split long)),
  )
]

-- The rows in the order in which they are replaced: as they are, or by their time of reference.
abbrev pub IsOrder : Commons → CpuConfig → List RowTlb → List RowTlb → Type 0
IsOrder lib c tlb ordered =
    ((c.reemplazo_tlb ≡ codes "FIFO") × (ordered ≡ tlb))
    ⊎ ((c.reemplazo_tlb ≡ codes "LRU") × (ordered ≡ lib.list_sort compare_last_reference tlb))

make_room-IsOrder :
    (lib : Commons) (c : CpuConfig) (tlb ordered : List RowTlb)
    → IsOrder lib c tlb ordered
    → make_room lib c tlb ≡ remove_first ordered
unfolding make_room strcmp_eq
make_room-IsOrder lib c tlb ordered (inl (fifo, same)) = rw (fifo, same) refl
make_room-IsOrder lib c tlb ordered (inr (lru, same)) = rw (lru, same) refl

-- Adding to a full TLB under FIFO or LRU drops the first row of the order (of the list as it is, or
-- sorted by the time of reference), appends the new row, and leaves the TLB full, provided that the
-- sorted list is as long as the list.
pub add_to_tlb_lem :
    (lib : Commons) (c : CpuConfig) (now : Timeval) (pid segment page frame : ℤ)
    (tlb ordered : List RowTlb)
    → length tlb ≡ c.entradas_tlb
    → 0 < c.entradas_tlb
    → IsOrder lib c tlb ordered
    → length ordered ≡ length tlb
    → (oldest : RowTlb) × (rest : List RowTlb) × (ordered ≡ oldest ∷ rest)
      × (add_to_tlb lib c now pid segment page frame tlb
          ≡ some (rest ++ new_row now pid segment page frame ∷ []))
      × (length (rest ++ new_row now pid segment page frame ∷ []) ≡ c.entradas_tlb)
unfolding add_to_tlb add_row_to_tlb
add_to_tlb_lem lib c now pid segment page frame tlb [] long full order same = absurd (omega arith)
add_to_tlb_lem lib c now pid segment page frame tlb (oldest ∷ rest) long full order same =
    let nonempty : (c.entradas_tlb == 0) ≡ false = ground arith in
    let no_room : ltb (length tlb) c.entradas_tlb ≡ false = ground arith in
    let exact : (length tlb == c.entradas_tlb) ≡ true = ground arith in
    (
      oldest,
      rest,
      refl,
      rw (nonempty, no_room, exact, make_room-IsOrder lib c tlb (oldest ∷ rest) order) refl,
      omega (arith, length-append rest (new_row now pid segment page frame ∷ [])),
    )

row_of_self :
    (now : Timeval) (pid segment page frame : ℤ)
    → is_row_of page segment pid (new_row now pid segment page frame) ≡ true
row_of_self now pid segment page frame =
    rw
      ((eqb_ℤ_iff page page).1 refl, (eqb_ℤ_iff segment segment).1 refl, (eqb_ℤ_iff pid pid).1 refl)
      refl

-- A page that the TLB does not have, added to a full TLB under FIFO or LRU, is found by the next
-- search for it, which answers with the frame that was added and leaves the TLB full.
pub present_in_tlb-add_to_tlb :
    (lib : Commons) (c : CpuConfig) (now hit : Timeval) (pid segment page frame : ℤ)
    (tlb ordered : List RowTlb)
    → length tlb ≡ c.entradas_tlb
    → 0 < c.entradas_tlb
    → IsOrder lib c tlb ordered
    → length ordered ≡ length tlb
    → IsMissing page segment pid ordered
    → (added : List RowTlb) × (found : List RowTlb) × (add_to_tlb lib c now pid segment page frame
          tlb
        ≡ some added)
      × (present_in_tlb c hit page segment pid added ≡ some (frame, found))
      × (length found ≡ c.entradas_tlb)
unfolding present_in_tlb
present_in_tlb-add_to_tlb lib c now hit pid segment page frame tlb ordered long full order same
      missing =
    let (oldest, rest, split, added, size) =
      add_to_tlb_lem lib c now pid segment page frame tlb ordered long full order same in
    let row = new_row now pid segment page frame in
    let kept : IsMissing page segment pid (oldest ∷ rest) =
      subst (IsMissing page segment pid) split missing in
    (
      rest ++ row ∷ [],
      rest ++ record row { last_reference = hit } ∷ [],
      added,
      search-Hit hit page segment pid rest row [] c.entradas_tlb kept.1
          (row_of_self now pid segment page frame) size,
      omega (
        arith,
        size,
        length-append rest (row ∷ []),
        length-append rest (record row { last_reference = hit } ∷ []),
      ),
    )
