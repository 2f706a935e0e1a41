-- ===== src/Cpu/Cycle/Set.antt =====
-- The SET instruction of cpu/src/cpu.c.
use geck.Prelude.{ℕ, ◌+◌, ◌%◌, ◌^◌, ◌<◌, ◌≡◌, ◌≢◌, ◌↔◌, refl, pos, List, ◌∷◌, some, arith}
use geck.Shared.Strings.{Text, codes, strcmp_eq, atoi}
use geck.Shared.{Pcb, keyfromstring}
use geck.Memory.{MemoryConfig, Memory}
use geck.Cpu.{CpuConfig, Cpu, Commons}
use geck.Cpu.RegisterFile.{add_value_to_register, find_value_of_register}
use geck.Cpu.RegisterFile.Arithmetic.{
  IsRegister, IsRegisters, find-IsU32, add_value_to_register_lem,
}
use geck.Cpu.Cycle.{Round, execute_key, execute_instruction}

-- The instruction SET of a register and a number from 0 to 2^31 - 1 is executed whatever the memory holds.
-- It adds the number to the register, modulo 2^32, so that the register holds the number afterwards
-- exactly when it held 0; every other register is as before, and so is all of the CPU but its
-- registers.
pub execute_instruction-set :
    (lib : Commons) (c : CpuConfig) (m : MemoryConfig) (round : Round) (name text other : Text)
    (rest : List Text) (value : ℕ) (pcb : Pcb) (cpu : Cpu) (s : Memory)
    → IsRegister name
    → IsRegisters cpu.registers
    → atoi text ≡ pos value
    → value < 2 ^ 31
    → other ≢ name
    → (cpu' : Cpu) × (execute_instruction lib c m round (codes "SET" ∷ name ∷ text ∷ rest) pcb cpu s
        ≡ some (cpu', s))
      × (find_value_of_register name cpu'.registers
          ≡ (find_value_of_register name cpu.registers + value) % 2 ^ 32)
      × ((find_value_of_register name cpu'.registers ≡ value)
          ↔ (find_value_of_register name cpu.registers ≡ 0))
      × (find_value_of_register other cpu'.registers ≡ find_value_of_register other cpu.registers)
      × (record cpu' { registers = cpu.registers } ≡ cpu)
unfolding execute_instruction execute_key keyfromstring strcmp_eq
execute_instruction-set lib c m round name text other rest value pcb cpu s known words parsed small
      apart =
    let bound = find-IsU32 name cpu.registers words in
    let (added, kept) =
      add_value_to_register_lem name text other value cpu.registers known parsed small apart in
    (
      record cpu { registers = add_value_to_register name text cpu.registers },
      refl,
      added,
      (λ e. omega (arith, added, e, bound, small), λ e. omega (arith, added, e, small)),
      kept,
      refl,
    )
