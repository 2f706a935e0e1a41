-- ===== src/Cpu/Mmu/Stale.antt =====
-- The TLB of cpu/src/cpu.c against the memory module: once a page has been translated, the memory is
-- not asked again.
use geck.Prelude.{◌<◌, ℤ, negsuc, eqb_ℤ, List, length, some, false, ◌≡◌, refl}
use geck.Shared.{Pcb}
use geck.Memory.{MemoryConfig, Memory}
use geck.Memory.Handlers.{CpuReply, frame_request, attend_cpu}
use geck.Cpu.{Timeval, RowTlb, CpuConfig, Cpu, Commons}
use geck.Cpu.Tlb.{present_in_tlb}
use geck.Cpu.Tlb.Contents.{IsMissing, IsOrder, search-missing, present_in_tlb-add_to_tlb}
use geck.Cpu.Mmu.{
  LogicalAddress, frame_of_reply, find_frame, calculate_physical_address, miss,
  build_physical_address,
}

module _ (lib : Commons) (c : CpuConfig) (m : MemoryConfig) (parts : LogicalAddress)
    (pcb : Pcb) where
  -- A search that finds a frame decides the translation, whatever the memory holds.
  build-hit :
      (hit now : Timeval) (cpu : Cpu) (s : Memory) (frame : ℤ) (tlb : List RowTlb)
      → present_in_tlb c hit parts.page_num parts.segment_number pcb.process_id cpu.tlb
        ≡ some (frame, tlb)
      → eqb_ℤ frame (negsuc 0) ≡ false
      → build_physical_address lib c m hit now parts pcb cpu s
        ≡ some (
          calculate_physical_address frame parts.page_offset c.tam_pagina,
          record cpu { tlb = tlb },
          s,
        )
  unfolding build_physical_address
  build-hit hit now cpu s frame tlb found valid = rw (found, valid) refl

-- A page that the TLB (full, under FIFO or LRU) does not have and that the memory answers with a
-- frame is translated to an address in that frame. The next translation of the page gives the same
-- address whatever the memory module holds by then, also when the page has been replaced and another
-- page is in the frame.
pub build_physical_address-stale :
    (lib : Commons) (c : CpuConfig) (m : MemoryConfig) (parts : LogicalAddress) (pcb : Pcb)
    (hit now hit_again now_again : Timeval) (cpu : Cpu) (s s₁ replaced : Memory) (frame : ℤ)
    (ordered : List RowTlb)
    → length cpu.tlb ≡ c.entradas_tlb
    → 0 < c.entradas_tlb
    → IsOrder lib c cpu.tlb ordered
    → length ordered ≡ length cpu.tlb
    → IsMissing parts.page_num parts.segment_number pcb.process_id cpu.tlb
    → IsMissing parts.page_num parts.segment_number pcb.process_id ordered
    → (attend_cpu m (frame_request pcb parts.page_num parts.segment_number) s
        ≡ some (CpuReply.frame_response frame, s₁))
    → eqb_ℤ frame (negsuc 0) ≡ false
    → (address : ℤ) × (cpu₁ : Cpu) × (build_physical_address lib c m hit now parts pcb cpu s
        ≡ some (address, cpu₁, s₁))
      × (cpu₂ : Cpu) × (build_physical_address lib c m hit_again now_again parts pcb cpu₁ replaced
          ≡ some (address, cpu₂, replaced))
unfolding build_physical_address miss find_frame frame_of_reply present_in_tlb
build_physical_address-stale lib c m parts pcb hit now hit_again now_again cpu s s₁ replaced frame
      ordered long full order same missing kept reply valid =
    let (added, found, stored, again, size) =
      present_in_tlb-add_to_tlb lib c now hit_again pcb.process_id parts.segment_number
        parts.page_num frame cpu.tlb ordered long full order same kept in
    (
      calculate_physical_address frame parts.page_offset c.tam_pagina,
      record cpu { tlb = added },
      rw
          (
            search-missing hit parts.page_num parts.segment_number pcb.process_id cpu.tlb
                c.entradas_tlb missing long,
            reply,
            valid,
            stored,
          )
          refl,
      record cpu { tlb = found },
      build-hit lib c m parts pcb hit_again now_again (record cpu { tlb = added }) replaced frame
          found again valid,
    )
