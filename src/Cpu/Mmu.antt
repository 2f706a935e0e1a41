-- ===== src/Cpu/Mmu.antt =====
-- The MMU of cpu/src/cpu.c. A request to the memory module is a call of its handler.
pub mod Address
pub mod Stale
use geck.Prelude.{
  negated, add_int, ℕ, suc, ◌+◌, ◌-◌, ◌*◌, ◌/◌, ◌%◌, ℤ, pos, negsuc, eqb_ℤ, ltb_ℤ, ltb, List, Bool,
  true, not, Option, none, some, if◌then◌else◌, list_get, ◌>>=◌, ◌>>◌, guard, ◌==◌,
}
use geck.Shared.{Pcb}
use geck.Memory.{MemoryConfig, Memory}
use geck.Memory.Handlers.{CpuReply, frame_request, attend_cpu}
use geck.Cpu.{Timeval, CpuConfig, Cpu, Commons}
use geck.Cpu.Tlb.{present_in_tlb, add_to_tlb}

-- `Logical_address_parameters`
pub record LogicalAddress : Type 0 where
  pub max_segment_size : ℕ
  pub segment_number : ℤ
  pub segment_offset : ℤ
  pub page_num : ℤ
  pub page_offset : ℤ

-- `/` and `%` of C by a positive number: towards zero, with the sign of the dividend.
abbrev pub div_int : ℤ → ℕ → ℤ
div_int (pos n) d = pos (n / d)
div_int (negsuc n) d = negated (suc n / d)

abbrev pub mod_int : ℤ → ℕ → ℤ
mod_int (pos n) d = pos (n % d)
mod_int (negsuc n) d = negated (suc n % d)

unfoldable pub logical_parts : CpuConfig → ℤ → LogicalAddress
logical_parts c logical_address =
    let size = c.entradas_por_tabla * c.tam_pagina in
    let offset = mod_int logical_address size in
    record {
      max_segment_size = size;
      segment_number = div_int logical_address size;
      segment_offset = offset;
      page_num = div_int offset c.tam_pagina;
      page_offset = mod_int offset c.tam_pagina;
    }

-- A division by zero is a fault. A segment that the process does not have is NULL, whose size is
-- read all the same.
unfoldable pub translate_logical_address : CpuConfig → ℤ → Pcb → Cpu → Option (LogicalAddress × Cpu)
unfolding logical_parts
translate_logical_address c logical_address pcb cpu = do
  guard (not (c.entradas_por_tabla * c.tam_pagina == 0))
  let parts = logical_parts c logical_address
  segment ← list_get pcb.segment_table parts.segment_number
  some (
    parts,
    if ltb_ℤ parts.segment_offset segment.size then cpu else record cpu { sigsegv = true },
  )

-- What `find_frame` makes of the memory's answer; any other answer ends the module.
unfoldable pub frame_of_reply : CpuReply → LogicalAddress → Cpu → Option (ℤ × Cpu)
frame_of_reply (CpuReply.frame_response frame) parts cpu = some (frame, cpu)
frame_of_reply (CpuReply.page_fault frame) parts cpu = some (
  frame,
  record cpu {
    page_fault = true;
    fault_segment = parts.segment_number;
    fault_page = parts.page_num;
  },
)
frame_of_reply _ parts cpu = none

unfoldable pub find_frame :
    MemoryConfig → LogicalAddress → Pcb → Cpu → Memory → Option (ℤ × Cpu × Memory)
unfolding frame_of_reply
find_frame m parts pcb cpu s = do
  (reply, s₁) ← attend_cpu m (frame_request pcb parts.page_num parts.segment_number) s
  (frame, cpu₁) ← frame_of_reply reply parts cpu
  some (frame, cpu₁, s₁)

abbrev pub times : ℤ → ℕ → ℤ
times (pos a) n = pos (a * n)
times (negsuc a) n = negated (suc a * n)

unfoldable pub calculate_physical_address : ℤ → ℤ → ℕ → ℤ
calculate_physical_address frame offset page_size = add_int (times frame page_size) offset

-- A miss in the TLB asks the memory for the frame, and a frame that it has goes into the TLB.
unfoldable pub miss :
    Commons
    → CpuConfig
    → MemoryConfig
    → Timeval
    → LogicalAddress
    → Pcb
    → Cpu
    → Memory
    → Option (ℤ × Cpu × Memory)
unfolding calculate_physical_address
miss lib c m now parts pcb cpu s = do
  (frame, cpu₁, s₁) ← find_frame m parts pcb cpu s
  if eqb_ℤ frame (negsuc 0) then some (negsuc 0, cpu₁, s₁) else (do
    tlb ← add_to_tlb lib c now pcb.process_id parts.segment_number parts.page_num frame cpu₁.tlb
    some (
      calculate_physical_address frame parts.page_offset c.tam_pagina,
      record cpu₁ { tlb = tlb },
      s₁,
    ))

-- `hit` and `now` are the times of the search and of a new row.
unfoldable pub build_physical_address :
    Commons
    → CpuConfig
    → MemoryConfig
    → Timeval
    → Timeval
    → LogicalAddress
    → Pcb
    → Cpu
    → Memory
    → Option (ℤ × Cpu × Memory)
unfolding calculate_physical_address
build_physical_address lib c m hit now parts pcb cpu s = do
  (frame, tlb) ← present_in_tlb c hit parts.page_num parts.segment_number pcb.process_id cpu.tlb
  let cpu₁ : Cpu = record cpu { tlb = tlb }
  if eqb_ℤ frame (negsuc 0)
      then miss lib c m now parts pcb cpu₁ s
      else some (calculate_physical_address frame parts.page_offset c.tam_pagina, cpu₁, s)
