-- ===== src/Cpu.antt =====
-- cpu/include/cpu.h: the data of the CPU module, and the library functions that it calls.
pub mod RegisterFile
pub mod Tlb
pub mod Mmu
pub mod Cycle
pub mod Messages
pub mod Sockets
use geck.Prelude.{ℕ, ℤ, ◌≡◌, IsInt, List, [], ◌∷◌, Bool, true, get_elem?, Option, some}
use geck.Shared.Strings.{Text, atoi}
use geck.Shared.{Registers}

-- `struct timeval`
pub record Timeval : Type 0 where
  pub tv_sec : ℕ
  pub tv_usec : ℕ

-- `row_tlb`
pub record RowTlb : Type 0 where
  pub process_id : ℤ
  pub segment : ℤ
  pub page : ℤ
  pub frame : ℤ
  pub init_time : Timeval
  pub last_reference : Timeval

-- `CPU_config_struct` without addresses, ports and the delay, and what the memory sent at the start
-- (`Config_memory_in_cpu`)
pub record CpuConfig : Type 0 where
  pub entradas_tlb : ℕ
  pub reemplazo_tlb : Text
  pub tam_pagina : ℕ
  pub entradas_por_tabla : ℕ

-- The globals of the module. The flags are `int`s that are only set to 0 and 1.
pub record Cpu : Type 0 where
  pub registers : Registers
  pub tlb : List RowTlb
  pub end_process : Bool
  pub input_output : Bool
  pub check_interruption : Bool
  pub page_fault : Bool
  pub sigsegv : Bool
  pub device : Text
  pub parameter : Text
  pub fault_segment : ℤ
  pub fault_page : ℤ

-- The functions of the commons library that the module calls.
pub record Commons : Type 0 where
  pub string_split : Text → Text → List Text
  pub string_itoa : ℤ → Text
  pub list_sort : (RowTlb → RowTlb → Bool) → List RowTlb → List RowTlb
