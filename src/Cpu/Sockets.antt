-- ===== src/Cpu/Sockets.antt =====
-- The threads of cpu/src/cpu.c that read from sockets: `process_dispatch`, `process_interrupt`, and the
-- handshake with the memory module.
use geck.Prelude.{
  ℕ, ◌^◌, ◌<◌, ◌≡◌, ℤ, pos, negsuc, eqb_ℤ, List, [], ◌++◌, Bool, true, Option, none, some, length,
  if◌then◌else◌, ◌>>=◌,
}
use geck.Shared.{
  OperationCode, execute_pcb, execute_interruption, config_memory, operation_int, Pcb,
}
use geck.Shared.Wire.{
  send_pcb_package, read_int, to_size, receive_operation, receive_buffer, receive_pcb,
}
use geck.Shared.Wire.Bytes.{pcb_bytes}
use geck.Shared.Wire.PcbRoundTrip.{IsPcb}
use geck.Shared.Wire.Channel.{receive-send_pcb}
use geck.Memory.{MemoryConfig, Memory}
use geck.Cpu.{Cpu, CpuConfig, Commons}
use geck.Cpu.Cycle.{Round, CpuMessage, execute_process}

abbrev is_code : ℤ → OperationCode → Bool
is_code code operation = eqb_ℤ code (pos (operation_int operation))

-- The two numbers of CONFIG_MEMORY; a negative one is no size.
unfoldable pub init_memory_config : CpuConfig → List ℕ → Option (CpuConfig × List ℕ)
init_memory_config c channel = do
  (buffer, rest) ← receive_buffer channel
  (tam_pagina, rest₁) ← read_int buffer
  (entradas_por_tabla, rest₂) ← read_int rest₁
  size ← to_size tam_pagina
  entries ← to_size entradas_por_tabla
  some (record c { tam_pagina = size; entradas_por_tabla = entries }, rest)

-- The answer to SEND_CONFIG; any other code leaves the configuration as it is.
unfoldable pub handshake_memory : CpuConfig → List ℕ → Option (CpuConfig × List ℕ)
handshake_memory c channel =
    let (code, rest) = receive_operation channel in
    if is_code code config_memory then init_memory_config c rest else some (c, rest)

-- How a round of `process_dispatch` ends: the module stops when the kernel closes, and exits at a code
-- that it does not know.
pub data Dispatched : Type 0 where
  fault closed exits : Dispatched
  executed : CpuMessage → Cpu → Memory → List ℕ → Dispatched

abbrev pub dispatched : List ℕ → Option (CpuMessage × Cpu × Memory) → Dispatched
dispatched rest none = fault
dispatched rest (some (message, cpu, s)) = executed message cpu s rest

module _ (lib : Commons) (c : CpuConfig) (m : MemoryConfig) (rounds : List Round) (cpu : Cpu)
    (s : Memory) where
  -- EXECUTE_PCB, behind the reading of the process.
  abbrev pub execute_received : Option (Pcb × List ℕ) → Dispatched
  execute_received none = fault
  execute_received (some (pcb, rest)) = dispatched rest (execute_process lib c m rounds pcb cpu s)

  unfoldable pub process_dispatch : List ℕ → Dispatched
  process_dispatch channel =
      let (code, rest) = receive_operation channel in
      if is_code code execute_pcb
      then execute_received (receive_pcb rest)
      else if eqb_ℤ code (negsuc 0)
      then closed
      else exits

  -- A process that the kernel sends is the one that is executed.
  process_dispatch-send_pcb :
      (pcb : Pcb) (rest : List ℕ)
      → IsPcb pcb
      → length (pcb_bytes pcb) < 2 ^ 31
      → process_dispatch (send_pcb_package [] pcb execute_pcb ++ rest)
        ≡ dispatched rest (execute_process lib c m rounds pcb cpu s)
  unfolding process_dispatch operation_int
  process_dispatch-send_pcb pcb rest h fits =
      let a = receive-send_pcb pcb execute_pcb rest h fits in rw (a.0, a.1)

-- A round of `process_interrupt`: the flag is set, or the thread ends, or nothing happens.
unfoldable pub process_interrupt : Cpu → List ℕ → Option (Cpu × List ℕ)
process_interrupt cpu channel =
    let (code, rest) = receive_operation channel in
    if is_code code execute_interruption
    then some (record cpu { check_interruption = true }, rest)
    else if eqb_ℤ code (negsuc 0)
    then none
    else some (cpu, rest)
