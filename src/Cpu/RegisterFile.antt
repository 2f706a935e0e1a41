-- ===== src/Cpu/RegisterFile.antt =====
-- The registers of cpu/src/cpu.c.
pub mod Arithmetic
use geck.Prelude.{ℕ, ◌+◌, ◌%◌, ◌^◌, ℤ, word, signed, if◌then◌else◌}
use geck.Shared.Strings.{Text, codes, strcmp_eq, atoi}
use geck.Shared.{Registers, Pcb}
use geck.Cpu.{Cpu, Commons}

unfoldable pub init_registers : Cpu → Cpu
init_registers cpu = record cpu { registers = record { ax = 0; bx = 0; cx = 0; dx = 0 } }

unfoldable pub set_registers : Pcb → Cpu → Cpu
set_registers pcb cpu = record cpu { registers = pcb.cpu_registers }

unfoldable pub save_context_pcb : Pcb → Cpu → Pcb
save_context_pcb pcb cpu = record pcb { cpu_registers = cpu.registers }

-- `uint32_t` addition
abbrev pub add_u32 : ℕ → ℕ → ℕ
add_u32 a b = (a + b) % 2 ^ 32

-- A function of the register that a name denotes; any other name leaves the registers alone.
unfoldable pub update_register : Text → (ℕ → ℕ) → Registers → Registers
update_register name f r =
    if strcmp_eq name (codes "AX")
    then record r { ax = f r.ax }
    else if strcmp_eq name (codes "BX")
    then record r { bx = f r.bx }
    else if strcmp_eq name (codes "CX")
    then record r { cx = f r.cx }
    else if strcmp_eq name (codes "DX")
    then record r { dx = f r.dx }
    else r

unfoldable pub add_value_to_register : Text → Text → Registers → Registers
add_value_to_register name value r = update_register name (λ old. add_u32 old (word (atoi value))) r

unfoldable pub find_value_of_register : Text → Registers → ℕ
find_value_of_register name r =
    if strcmp_eq name (codes "AX")
    then r.ax
    else if strcmp_eq name (codes "BX")
    then r.bx
    else if strcmp_eq name (codes "CX")
    then r.cx
    else if strcmp_eq name (codes "DX")
    then r.dx
    else 0

-- The value goes through its text as an `int`.
unfoldable pub add_two_registers : Commons → Text → Text → Registers → Registers
add_two_registers lib target source r =
    add_value_to_register target (lib.string_itoa (signed (find_value_of_register source r))) r

unfoldable pub store_value_in_register : Text → ℕ → Registers → Registers
store_value_in_register name value r = update_register name (λ old. value) r
