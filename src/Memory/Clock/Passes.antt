-- ===== src/Memory/Clock/Passes.antt =====
-- The two passes of `modified_clock` come round, and the outer loop ends.
use geck.Prelude.{
  ℕ, zero, suc, ◌+◌, ◌≤◌, ◌<◌, ◌≡◌, refl, ◌⊎◌, inl, inr, List, true, false, not, ◌&&◌, Bool-cases,
  some, set, arith, ap, ◌∙◌, ◌==◌,
}
use geck.Memory.{MemoryConfig, PageRow, ClockRow, Memory}
use geck.Memory.Clock.{
  Found, without_use, move_to_next_pointer, Pass, victim, around, clean_pass, dirty_pass,
  modified_search,
}
use geck.Memory.Clock.Halting.{
  use_count, use_count-clear, use_count-clear_lt, IsClock, IsClock-clear, IsVictim, EntryAt,
  entry_at, move-lt,
}

module _ (c : MemoryConfig) (start : ℕ) where
  -- `r` rounds bring the pointer `p` to `start`.
  abbrev Rounds : ℕ → ℕ → Type 0
  Rounds p r =
      (0 < r)
      × (p < c.marcos_por_proceso)
      × (start < c.marcos_por_proceso)
      × ((p + r ≡ start) ⊎ (p + r ≡ start + c.marcos_por_proceso))

  -- One round less behind the next pointer, unless it is `start`.
  Rounds-next :
      (p r : ℕ)
      → Rounds p (suc r)
      → (move_to_next_pointer c p ≡ start) ⊎ Rounds (move_to_next_pointer c p) r
  unfolding move_to_next_pointer
  Rounds-next p r h = ground arith

module _ (c : MemoryConfig) (s : Memory) (frames : List ClockRow) (start : ℕ) where
  -- How the pass for clean pages ends, started at `rows`.
  abbrev CleanEnd : List PageRow → Pass → Type 0
  CleanEnd rows (victim found) = IsVictim c s frames found
  CleanEnd rows (around q rows') = (q ≡ start) × (rows' ≡ rows)

  clean_pass-CleanEnd :
      (fuel p r : ℕ) (rows : List PageRow)
      → IsClock c s frames rows
      → Rounds c start p r
      → r ≤ fuel
      → (pass : Pass) × (clean_pass c frames start fuel p rows ≡ some pass) × CleanEnd rows pass
  unfolding clean_pass
  clean_pass-CleanEnd zero p r rows w turn h = absurd (omega arith)
  clean_pass-CleanEnd (suc fuel) p zero rows w turn h = absurd (omega arith)
  clean_pass-CleanEnd (suc fuel) p (suc r) rows w turn h =
      let (entry, row, (he, hr)) = entry_at c s frames rows p w turn.1 in
      elim (Bool-cases (not row.use_bit && not row.modified)) [
        | inl u ↦
            rw (he, hr, u)
              (
                victim (record { entry = entry; next = move_to_next_pointer c p; rows = rows }),
                refl,
                record {
                  index = p;
                  entry_in = he;
                  next_in = move-lt c p turn.1;
                  behind = refl;
                  row = row;
                  row_in = hr;
                  unused = ground arith;
                  rows_kept = w;
                },
              )
        | inr u ↦ elim (Rounds-next c start p r turn) [
          | inl back ↦
              rw (he, hr, u) (around (move_to_next_pointer c p) rows, ground arith, (back, refl))
          | inr more ↦ elim (Bool-cases (move_to_next_pointer c p == start)) [
            | inl back ↦
                rw (he, hr, u, back)
                  (around (move_to_next_pointer c p) rows, refl, (ground arith, refl))
            | inr on ↦
                rw (he, hr, u, on)
                  (clean_pass-CleanEnd fuel (move_to_next_pointer c p) r rows w more (omega arith))
          ]
        ]
      ]

  -- A pass for clean pages that comes round has met no clean page at its start.
  clean_pass_around :
      (fuel p : ℕ) (rows : List PageRow) (entry : ClockRow) (row : PageRow) (q : ℕ)
      (rows' : List PageRow)
      → EntryAt frames rows p entry row
      → clean_pass c frames start fuel p rows ≡ some (around q rows')
      → row.use_bit ≡ false
      → row.modified ≡ true
  unfolding clean_pass
  clean_pass_around zero p rows entry row q rows' at' e u = absurd (cc)
  clean_pass_around (suc fuel) p rows entry row q rows' (he, hr) e u = ground arith

  -- How the pass for modified pages ends: with a victim, or round, with fewer pages in use if the
  -- first one was.
  abbrev DirtyEnd : List PageRow → PageRow → Pass → Type 0
  DirtyEnd rows row (victim found) = IsVictim c s frames found
  DirtyEnd rows row (around q rows') =
      (q ≡ start)
      × IsClock c s frames rows'
      × (use_count rows' frames ≤ use_count rows frames)
      × (row.use_bit ≡ true → use_count rows' frames < use_count rows frames)
      × (row.use_bit ≡ false → row.modified ≡ false)

  -- One round that finds no victim, before a pass that ends so.
  DirtyEnd-back :
      (rows rows₁ : List PageRow) (row row₁ : PageRow) (pass : Pass)
      → use_count rows₁ frames ≤ use_count rows frames
      → (row.use_bit ≡ true → use_count rows₁ frames < use_count rows frames)
      → (row.use_bit ≡ false → row.modified ≡ false)
      → DirtyEnd rows₁ row₁ pass
      → DirtyEnd rows row pass
  DirtyEnd-back rows rows₁ row row₁ (victim found) le lt clean end = end
  DirtyEnd-back rows rows₁ row row₁ (around q rows') le lt clean (e, w, le', lt', clean') =
      (e, w, omega arith, λ u. omega (arith, lt u), clean)

  dirty_pass-DirtyEnd :
      (fuel p r : ℕ) (rows : List PageRow) (entry : ClockRow) (row : PageRow)
      → IsClock c s frames rows
      → Rounds c start p r
      → r ≤ fuel
      → EntryAt frames rows p entry row
      → (pass : Pass) × (dirty_pass c frames start fuel p rows ≡ some pass) × DirtyEnd rows row pass
  unfolding dirty_pass
  dirty_pass-DirtyEnd zero p r rows entry row w turn h at' = absurd (omega arith)
  dirty_pass-DirtyEnd (suc fuel) p zero rows entry row w turn h at' = absurd (omega arith)
  dirty_pass-DirtyEnd (suc fuel) p (suc r) rows entry row w turn h (he, hr) =
      let next = move_to_next_pointer c p in
      let rows₁ = set rows entry.page (without_use row) in
      let w₁ = IsClock-clear c s frames rows p entry row (he, hr) w in
      let le = use_count-clear rows entry.page row frames in
      let lt = use_count-clear_lt rows frames p entry row he hr in
      elim (Bool-cases (not row.use_bit && row.modified)) [
        | inl u ↦
            rw (he, hr, u)
              (
                victim (record { entry = entry; next = next; rows = rows }),
                refl,
                record {
                  index = p;
                  entry_in = he;
                  next_in = move-lt c p turn.1;
                  behind = refl;
                  row = row;
                  row_in = hr;
                  unused = ground arith;
                  rows_kept = w;
                },
              )
        | inr u ↦
            let clean : row.use_bit ≡ false → row.modified ≡ false = λ h. ground arith in
            elim (Bool-cases (next == start)) [
              | inl back ↦
                  rw (he, hr, u, back) (around next rows₁, refl, (ground arith, w₁, le, lt, clean))
              | inr on ↦ elim (Rounds-next c start p r turn) [
                | inl back ↦ absurd (ground arith)
                | inr more ↦
                    let (entry₁, row₁, at₁) = entry_at c s frames rows₁ next w₁ more.1 in
                    let (pass, e, end) =
                      dirty_pass-DirtyEnd fuel next r rows₁ entry₁ row₁ w₁ more (omega arith) at₁ in
                    rw (he, hr, u, on)
                      (pass, e, DirtyEnd-back rows rows₁ row row₁ pass le lt clean end)
              ]
            ]
      ]

  -- A search from the clock's pointer finds a victim.
  abbrev pub Searches : ℕ → List PageRow → Type 0
  Searches fuel rows =
      (found : Found) × (modified_search c frames start fuel start rows ≡ some found)
      × IsVictim c s frames found

  -- One round of the outer loop, by how its two passes end.
  outer_round :
      (fuel : ℕ) (rows : List PageRow) (row : PageRow) (first second : Pass)
      → clean_pass c frames start (suc c.marcos_por_proceso) start rows ≡ some first
      → CleanEnd rows first
      → dirty_pass c frames start (suc c.marcos_por_proceso) start rows ≡ some second
      → DirtyEnd rows row second
      → ((q : ℕ) (rows' : List PageRow)
          → first ≡ around q rows'
          → row.use_bit ≡ false
          → row.modified ≡ true)
      → ((rows₂ : List PageRow)
          → IsClock c s frames rows₂
          → use_count rows₂ frames < use_count rows frames
          → Searches fuel rows₂)
      → Searches (suc fuel) rows
  unfolding modified_search
  outer_round fuel rows row (victim found) second e₁ end₁ e₂ end₂ met again =
      rw e₁ (found, refl, end₁)
  outer_round fuel rows row (around q rows') (victim found) e₁ (back, same) e₂ end₂ met again =
      rw (e₁, back, same, e₂) (found, refl, end₂)
  outer_round fuel rows row (around q rows') (around q₂ rows₂) e₁ (back, same) e₂
        (back₂, w₂, le, lt, clean) met again =
      let used : row.use_bit ≡ true = elim (Bool-cases row.use_bit) [
        | inl u ↦ u
        | inr u ↦ absurd (cc (met q rows' refl u, clean u))
      ] in
      rw (e₁, back, same, e₂, back₂) (again rows₂ w₂ (lt used))

  -- From its start, the outer loop finds a victim with fuel above the number of pages in use.
  pub modified_search-IsVictim :
      (fuel : ℕ) (rows : List PageRow)
      → IsClock c s frames rows
      → start < c.marcos_por_proceso
      → use_count rows frames < fuel
      → Searches fuel rows
  unfolding modified_search
  modified_search-IsVictim zero rows w hs h = elim h [ ]
  modified_search-IsVictim (suc fuel) rows w hs h =
      let n = c.marcos_por_proceso in
      let turn : Rounds c start start n = (w.some_frame, hs, hs, inr refl) in
      let (entry, row, at') = entry_at c s frames rows start w hs in
      let (first, e₁, end₁) = clean_pass-CleanEnd (suc n) start n rows w turn (omega arith) in
      let (second, e₂, end₂) =
        dirty_pass-DirtyEnd (suc n) start n rows entry row w turn (omega arith) at' in
      outer_round fuel rows row first second e₁ end₁ e₂ end₂
        (λ q rows' e. clean_pass_around (suc n) start rows entry row q rows' at' (e₁ ∙ ap some e))
        (λ rows₂ w₂ lt. modified_search-IsVictim fuel rows₂ w₂ hs (omega arith))
