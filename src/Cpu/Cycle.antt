-- ===== src/Cpu/Cycle.antt =====
-- The instruction cycle of cpu/src/cpu.c.
pub mod Restart
pub mod Set
use geck.Prelude.{
  add_int, ℕ, suc, ◌+◌, ℤ, pos, negsuc, eqb_ℤ, List, [], ◌∷◌, Bool, true, false, not, ◌||◌, Option,
  none, some, if◌then◌else◌, get_elem?, list_get, ◌>>=◌, ◌>>◌,
}
use geck.Shared.Strings.{Text, codes, atoi}
use geck.Shared.{Pcb, Key, i_set, i_add, i_io, i_mov_in, i_mov_out, i_exit, bad_key, keyfromstring}
use geck.Memory.{MemoryConfig, Memory}
use geck.Memory.Handlers.{CpuReply, mov_in, mov_out, attend_cpu}
use geck.Cpu.{Timeval, CpuConfig, Cpu, Commons}
use geck.Cpu.RegisterFile.{
  set_registers, save_context_pcb, add_value_to_register, add_two_registers, find_value_of_register,
  store_value_in_register,
}
use geck.Cpu.Mmu.{LogicalAddress, translate_logical_address, build_physical_address}

unfoldable pub fetch_next_instruction_to_execute : Pcb → Option Text
fetch_next_instruction_to_execute pcb = list_get pcb.instructions pcb.program_counter

unfoldable pub decode : Commons → Text → List Text
decode lib line = lib.string_split line (codes " ")

unfoldable pub update_program_counter : Pcb → Pcb
update_program_counter pcb = record pcb { program_counter = add_int pcb.program_counter (pos 1) }

-- What a round of the cycle meets: whether an interrupt has arrived before its test, and the times
-- that `gettimeofday` gives.
pub record Round : Type 0 where
  pub interrupted : Bool
  pub hit : Timeval
  pub now : Timeval

-- Any answer but MOV_IN_OK leaves the value unset.
unfoldable pub mov_in_value : CpuReply → Option ℕ
mov_in_value (CpuReply.mov_in_ok value) = some value
mov_in_value _ = none

module _ (lib : Commons) (c : CpuConfig) (m : MemoryConfig) where
  unfoldable pub fetch_value_in_memory : ℤ → Pcb → LogicalAddress → Memory → Option (ℕ × Memory)
  fetch_value_in_memory physical_address pcb parts s = do
    (reply, s₁) ← attend_cpu m (mov_in physical_address pcb parts.segment_number parts.page_num) s
    value ← mov_in_value reply
    some (value, s₁)

  unfoldable pub execute_mov_in : Round → Text → Text → Pcb → Cpu → Memory → Option (Cpu × Memory)
  execute_mov_in round register address pcb cpu s = do
    (parts, cpu₁) ← translate_logical_address c (atoi address) pcb cpu
    if cpu₁.sigsegv then some (cpu₁, s) else (do
      (physical_address, cpu₂, s₁) ←
          build_physical_address lib c m round.hit round.now parts pcb cpu₁ s
      if eqb_ℤ physical_address (negsuc 0) then some (cpu₂, s₁) else (do
        (value, s₂) ← fetch_value_in_memory physical_address pcb parts s₁
        some (
          record cpu₂ { registers = store_value_in_register register value cpu₂.registers },
          s₂,
        )))

  -- `write_value`, and the answer that is awaited.
  unfoldable pub write_value : ℤ → ℕ → ℤ → ℤ → Memory → Option Memory
  write_value physical_address value segment_index pid s = do
    (reply, s₁) ← attend_cpu m (mov_out physical_address value segment_index pid) s
    some s₁

  unfoldable pub execute_mov_out : Round → Text → Text → Pcb → Cpu → Memory → Option (Cpu × Memory)
  execute_mov_out round address register pcb cpu s = do
    (parts, cpu₁) ← translate_logical_address c (atoi address) pcb cpu
    if cpu₁.sigsegv then some (cpu₁, s) else (do
      (physical_address, cpu₂, s₁) ←
          build_physical_address lib c m round.hit round.now parts pcb cpu₁ s
      if eqb_ℤ physical_address (negsuc 0) then some (cpu₂, s₁) else (do
        let value = find_value_of_register register cpu₂.registers
        segment ← list_get pcb.segment_table parts.segment_number
        s₂ ← write_value physical_address value segment.index_page pcb.process_id s₁
        some (cpu₂, s₂)))

  -- A word that is missing from the line is NULL or past the end of the array.
  unfoldable pub execute_key : Key → Round → List Text → Pcb → Cpu → Memory → Option (Cpu × Memory)
  execute_key i_set round words pcb cpu s = do
    name ← get_elem? words 1
    value ← get_elem? words 2
    some (record cpu { registers = add_value_to_register name value cpu.registers }, s)
  execute_key i_add round words pcb cpu s = do
    target ← get_elem? words 1
    source ← get_elem? words 2
    some (record cpu { registers = add_two_registers lib target source cpu.registers }, s)
  execute_key i_io round words pcb cpu s = do
    device ← get_elem? words 1
    parameter ← get_elem? words 2
    some (record cpu { device = device; parameter = parameter; input_output = true }, s)
  execute_key i_mov_in round words pcb cpu s = do
    register ← get_elem? words 1
    address ← get_elem? words 2
    execute_mov_in round register address pcb cpu s
  execute_key i_mov_out round words pcb cpu s = do
    address ← get_elem? words 1
    register ← get_elem? words 2
    execute_mov_out round address register pcb cpu s
  execute_key i_exit round words pcb cpu s = some (record cpu { end_process = true }, s)
  execute_key bad_key round words pcb cpu s = some (cpu, s)

  unfoldable pub execute_instruction :
      Round → List Text → Pcb → Cpu → Memory → Option (Cpu × Memory)
  execute_instruction round words pcb cpu s = do
    name ← get_elem? words 0
    execute_key (keyfromstring name) round words pcb cpu s

  -- The body of the loop of `execute_process`.
  unfoldable pub execute_round : Round → Pcb → Cpu → Memory → Option (Pcb × Cpu × Memory)
  execute_round round pcb cpu s = do
    line ← fetch_next_instruction_to_execute pcb
    (cpu₁, s₁) ← execute_instruction round (decode lib line) pcb cpu s
    some (if cpu₁.page_fault then pcb else update_program_counter pcb, cpu₁, s₁)

  abbrev pub stops : Cpu → Bool
  stops cpu =
      cpu.check_interruption || cpu.end_process || cpu.input_output || cpu.page_fault || cpu.sigsegv

  abbrev pub interrupt : Bool → Cpu → Cpu
  interrupt arrived cpu = if arrived then record cpu { check_interruption = true } else cpu

  -- The loop, over the rounds that the environment gives it.
  unfoldable pub execute_loop : List Round → Pcb → Cpu → Memory → Option (Pcb × Cpu × Memory)
  execute_loop [] pcb cpu s = none
  execute_loop (round ∷ rounds) pcb cpu s =
      let cpu₁ = interrupt round.interrupted cpu in
      let later = execute_round round pcb cpu₁ s >>= λ r. execute_loop rounds r.0 r.1 r.2 in
      if stops cpu₁ then some (pcb, cpu₁, s) else later

-- What goes back to the kernel.
pub data CpuMessage : Type 0 where
  end_process : Pcb → CpuMessage
  input_output : Pcb → Text → Text → CpuMessage
  page_fault : Pcb → ℤ → ℤ → CpuMessage
  seg_fault : Pcb → CpuMessage
  execute_interruption : Pcb → CpuMessage
  nothing : CpuMessage

-- The end of `execute_process`: the first flag in this order decides.
unfoldable pub report : Pcb → Cpu → CpuMessage × Cpu
report pcb cpu =
    if cpu.end_process
    then (
      CpuMessage.end_process pcb,
      record cpu { end_process = false; check_interruption = false },
    )
    else if cpu.input_output
    then (
      CpuMessage.input_output pcb cpu.device cpu.parameter,
      record cpu { input_output = false; check_interruption = false },
    )
    else if cpu.page_fault
    then (
      CpuMessage.page_fault pcb cpu.fault_segment cpu.fault_page,
      record cpu { page_fault = false; check_interruption = false },
    )
    else if cpu.sigsegv
    then (seg_fault pcb, record cpu { sigsegv = false; check_interruption = false })
    else if cpu.check_interruption
    then (execute_interruption pcb, record cpu { check_interruption = false })
    else (nothing, cpu)

unfoldable pub execute_process :
    Commons
    → CpuConfig
    → MemoryConfig
    → List Round
    → Pcb
    → Cpu
    → Memory
    → Option (CpuMessage × Cpu × Memory)
execute_process lib c m rounds pcb cpu s = do
  (pcb₁, cpu₁, s₁) ← execute_loop lib c m rounds pcb (set_registers pcb cpu) s
  let (message, cpu₂) = report (save_context_pcb pcb₁ cpu₁) cpu₁
  some (message, cpu₂, s₁)
