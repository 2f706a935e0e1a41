-- ===== src/Cpu/Mmu/Address.antt =====
-- Logical addresses of cpu/src/cpu.c: their parts, and the check against the segment's size.
use native.Mathlib.Nat.{div-add-mod', mod-lt, div-lt_iff_lt-mul}
use geck.Prelude.{
  ℕ, ◌+◌, ◌*◌, ◌/◌, ◌%◌, ◌<◌, pos, ltb_ℤ, ◌≡◌, ◌↔◌, ◌⊎◌, inl, inr, Bool-cases, Bool, true, false,
  some, ◌==◌, get_elem?, arith,
}
use geck.Shared.{Pcb, Segment}
use geck.Cpu.{CpuConfig, Cpu}
use geck.Cpu.Mmu.{LogicalAddress, logical_parts, translate_logical_address}

-- The parts of an address: `segment` segments of the greatest size, then `page` pages, then `offset`.
abbrev pub IsSplit : CpuConfig → ℕ → LogicalAddress → Type 0
IsSplit c address parts =
    (segment : ℕ) × (page : ℕ) × (offset : ℕ) × (parts ≡ record {
      max_segment_size = c.entradas_por_tabla * c.tam_pagina;
      segment_number = pos segment;
      segment_offset = pos (page * c.tam_pagina + offset);
      page_num = pos page;
      page_offset = pos offset;
    })
    × (segment * (c.entradas_por_tabla * c.tam_pagina) + (page * c.tam_pagina + offset) ≡ address)
    × (page < c.entradas_por_tabla)
    × (offset < c.tam_pagina)

-- An address that is not negative is its segment's number times the greatest size of a segment,
-- plus its page's number times the page size, plus its offset in the page; the page is one of the
-- table's and the offset is inside the page, when pages and tables are not empty.
pub logical_parts-IsSplit :
    (c : CpuConfig) (address : ℕ)
    → 0 < c.tam_pagina
    → 0 < c.entradas_por_tabla * c.tam_pagina
    → IsSplit c address (logical_parts c (pos address))
unfolding logical_parts
logical_parts-IsSplit c address full whole =
    let size = c.entradas_por_tabla * c.tam_pagina in
    let offset = address % size in
    (
      address / size,
      offset / c.tam_pagina,
      offset % c.tam_pagina,
      rw (div-add-mod' offset c.tam_pagina),
      rw (div-add-mod' offset c.tam_pagina, div-add-mod' address size),
      (div-lt_iff_lt-mul full).1 (mod-lt address whole),
      mod-lt offset full,
    )

-- The translation of an address into a segment of the process keeps everything but the flag of a
-- segmentation fault, which it sets exactly when the offset is not less than the segment's size (it
-- stays set when it was).
pub translate_logical_address-sigsegv :
    (c : CpuConfig) (address : ℕ) (pcb : Pcb) (cpu : Cpu) (segment : Segment)
    → 0 < c.entradas_por_tabla * c.tam_pagina
    → get_elem? pcb.segment_table (address / (c.entradas_por_tabla * c.tam_pagina)) ≡ some segment
    → (flag : Bool) × (translate_logical_address c (pos address) pcb cpu
        ≡ some (logical_parts c (pos address), record cpu { sigsegv = flag }))
      × ((flag ≡ true) ↔ (
          (cpu.sigsegv ≡ true)
          ⊎ (ltb_ℤ (pos (address % (c.entradas_por_tabla * c.tam_pagina))) segment.size ≡ false)))
unfolding translate_logical_address logical_parts
translate_logical_address-sigsegv c address pcb cpu segment whole found =
    let nonzero : (c.entradas_por_tabla * c.tam_pagina == 0) ≡ false = ground arith in
    elim (Bool-cases (ltb_ℤ (pos (address % (c.entradas_por_tabla * c.tam_pagina))) segment.size)) [
      | inl inside ↦ (cpu.sigsegv, rw (nonzero, found, inside), ground arith)
      | inr outside ↦ (true, rw (nonzero, found, outside), ground arith)
    ]
