-- ===== src/Memory/Tables/Build.antt =====
-- The number of pages of a segment in memoria/src/memoria.c.
use native.Mathlib.Nat.{div-add-mod', mod-lt}
use geck.Prelude.{
  ℕ, ◌+◌, ◌*◌, ◌/◌, ◌%◌, ◌≤◌, ◌<◌, ◌==◌, pos, Bool-cases, inl, inr, ◌≡◌, refl, arith,
}
use geck.Memory.{MemoryConfig}
use geck.Memory.Tables.{calculate_frames_of_segment}

-- A segment gets the least number of pages that hold its bytes: the pages have room for the size, and
-- one page less has not.
pub calculate_frames_of_segment_lem :
    (c : MemoryConfig) (size : ℕ)
    → 0 < c.tam_pagina
    → (pages : ℕ) × (calculate_frames_of_segment c (pos size) ≡ pos pages)
      × (size ≤ pages * c.tam_pagina)
      × (pages * c.tam_pagina < size + c.tam_pagina)
unfolding calculate_frames_of_segment
calculate_frames_of_segment_lem c size full =
    let whole = div-add-mod' size c.tam_pagina in
    let small = mod-lt size full in
    elim (Bool-cases (size % c.tam_pagina == 0)) [
      | inl exact ↦ (
        size / c.tam_pagina,
        rw exact refl,
        ground (arith, whole, exact),
        ground (arith, whole, full),
      )
      | inr more ↦ (
        size / c.tam_pagina + 1,
        rw more refl,
        ground (arith, whole, small),
        ground (arith, whole, more),
      )
    ]
