-- ===== src/Tests/Cpu.antt =====
-- The theorems on the CPU module at small states.
use geck.Prelude.{
  ℕ, ◌+◌, ◌%◌, ◌^◌, ◌≡◌, ◌⊎◌, inl, inr, ◌↔◌, refl, ap, ℤ, pos, negsuc, ltb_ℤ, List, [], ◌∷◌, ◌++◌,
  length, Bool, true, false, some, arith,
}
use geck.Shared.Strings.{Text, codes, atoi, strcmp_eq}
use geck.Shared.{Pcb}
use geck.Memory.Tables.{
  get_page_table_by_index, find_table, get_frame_number_ram, frame_in_table, get_row,
}
use geck.Memory.Handlers.{attend_cpu}
use geck.Cpu.{Timeval, RowTlb, CpuConfig, Cpu, Commons}
use geck.Cpu.RegisterFile.{add_two_registers, find_value_of_register, set_registers}
use geck.Cpu.RegisterFile.Arithmetic.{IsRegisters, add_two_registers_lem}
use geck.Cpu.Tlb.{new_row, add_to_tlb, present_in_tlb}
use geck.Cpu.Tlb.Contents.{
  IsMissing, Hit, present_in_tlb_lem, add_to_tlb_lem, present_in_tlb-add_to_tlb,
}
use geck.Cpu.Mmu.{LogicalAddress, logical_parts, translate_logical_address, build_physical_address}
use geck.Cpu.Mmu.Address.{IsSplit, logical_parts-IsSplit, translate_logical_address-sigsegv}
use geck.Cpu.Mmu.Stale.{build_physical_address-stale}
use geck.Cpu.Cycle.{Round, CpuMessage, execute_instruction, execute_process}
use geck.Cpu.Cycle.Set.{execute_instruction-set}
use geck.Cpu.Cycle.Restart.{IsIdle, execute_process-page_fault}
use geck.Tests.Data.{config, process, segment, empty_memory, loaded_memory}

abbrev words_of : Text → Text → List Text
words_of line separator = codes "MOV_IN" ∷ codes "AX" ∷ codes "1" ∷ []

-- One line, one number, and rows in order.
abbrev commons : Commons
commons = record {
  string_split = words_of;
  string_itoa = λ z. codes "7";
  list_sort = λ before rows. rows;
}

abbrev cpu_config : CpuConfig
cpu_config = record {
  entradas_tlb = 1;
  reemplazo_tlb = codes "FIFO";
  tam_pagina = 4;
  entradas_por_tabla = 2;
}

abbrev moment : ℕ → Timeval
moment n = record { tv_sec = n; tv_usec = 0 }

abbrev free_row : RowTlb
free_row = new_row (moment 0) (negsuc 0) (negsuc 0) (negsuc 0) (negsuc 0)

abbrev machine : Cpu
machine = record {
  registers = record { ax = 7; bx = 0; cx = 0; dx = 0 };
  tlb = free_row ∷ [];
  end_process = false;
  input_output = false;
  check_interruption = false;
  page_fault = false;
  sigsegv = false;
  device = [];
  parameter = [];
  fault_segment = pos 0;
  fault_page = pos 0;
}

abbrev block : Pcb
block = process (codes "MOV_IN AX 1" ∷ [])

abbrev parts : LogicalAddress
parts = record {
  max_segment_size = 8;
  segment_number = pos 0;
  segment_offset = pos 1;
  page_num = pos 0;
  page_offset = pos 1;
}

abbrev round : ℕ → Round
round n = record { interrupted = false; hit = moment n; now = moment n }

execute_process_example :
    (cpu₁ : Cpu) × IsIdle cpu₁
    × (cpu₁.registers ≡ block.cpu_registers)
    × (cpu₁.tlb ≡ machine.tlb)
    × (execute_process commons cpu_config
          (config (codes "CLOCK"))
          (round 1 ∷ round 2 ∷ [])
          block
          machine
          empty_memory
        ≡ some (CpuMessage.page_fault block (pos 0) (pos 0), cpu₁, empty_memory))
unfolding translate_logical_address logical_parts attend_cpu get_frame_number_ram frame_in_table
    get_row get_page_table_by_index find_table atoi set_registers
execute_process_example =
    execute_process-page_fault commons cpu_config (config (codes "CLOCK")) block parts
      (codes "MOV_IN AX 1") (codes "AX") (codes "1") (round 1) (round 2) [] machine empty_memory
      empty_memory
      (record {
        no_end = refl;
        no_io = refl;
        no_interruption = refl;
        no_fault = refl;
        no_sigsegv = refl;
      })
      refl refl refl refl refl (refl, tt) refl

stale_example :
    (address : ℤ) × (cpu₁ : Cpu) × (build_physical_address commons cpu_config
        (config (codes "CLOCK"))
        (moment 1)
        (moment 2)
        parts
        block
        machine
        loaded_memory
      ≡ some (address, cpu₁, loaded_memory))
    × (cpu₂ : Cpu) × (build_physical_address commons cpu_config
          (config (codes "CLOCK"))
          (moment 3)
          (moment 4)
          parts
          block
          cpu₁
          empty_memory
        ≡ some (address, cpu₂, empty_memory))
unfolding attend_cpu get_frame_number_ram frame_in_table get_row get_page_table_by_index find_table
stale_example =
    build_physical_address-stale commons cpu_config (config (codes "CLOCK")) parts block (moment 1)
      (moment 2) (moment 3) (moment 4) machine loaded_memory loaded_memory empty_memory (pos 0)
      (free_row ∷ []) refl (omega arith) (inl (refl, refl)) refl (refl, tt) (refl, tt) refl refl

present_example :
    (added : List RowTlb) × (found : List RowTlb) × (add_to_tlb commons cpu_config
        (moment 1)
        (pos 1)
        (pos 0)
        (pos 0)
        (pos 3)
        (free_row ∷ [])
      ≡ some added)
    × (present_in_tlb cpu_config (moment 2) (pos 0) (pos 0) (pos 1) added ≡ some (pos 3, found))
    × (length found ≡ 1)
present_example =
    present_in_tlb-add_to_tlb commons cpu_config (moment 1) (moment 2) (pos 1) (pos 0) (pos 0)
      (pos 3) (free_row ∷ []) (free_row ∷ []) refl (omega arith) (inl (refl, refl)) refl (refl, tt)

add_to_tlb_example :
    (oldest : RowTlb) × (rest : List RowTlb) × ((free_row ∷ []) ≡ oldest ∷ rest)
    × (add_to_tlb commons cpu_config (moment 1) (pos 1) (pos 0) (pos 0) (pos 3) (free_row ∷ [])
        ≡ some (rest ++ new_row (moment 1) (pos 1) (pos 0) (pos 0) (pos 3) ∷ []))
    × (length (rest ++ new_row (moment 1) (pos 1) (pos 0) (pos 0) (pos 3) ∷ []) ≡ 1)
add_to_tlb_example =
    add_to_tlb_lem commons cpu_config (moment 1) (pos 1) (pos 0) (pos 0) (pos 3) (free_row ∷ [])
      (free_row ∷ []) refl (omega arith) (inl (refl, refl)) refl

search_example :
    (IsMissing (pos 0) (pos 0) (pos 1) (free_row ∷ [])
      × (present_in_tlb cpu_config (moment 2) (pos 0) (pos 0) (pos 1) (free_row ∷ [])
          ≡ some (negsuc 0, free_row ∷ [])))
    ⊎ ((h : Hit (pos 0) (pos 0) (pos 1) (free_row ∷ [])) × (present_in_tlb cpu_config
            (moment 2)
            (pos 0)
            (pos 0)
            (pos 1)
            (free_row ∷ [])
          ≡ some (h.row.frame, h.before ++ record h.row { last_reference = moment 2 } ∷ h.after)))
search_example =
    present_in_tlb_lem cpu_config (moment 2) (pos 0) (pos 0) (pos 1) (free_row ∷ []) refl

split_example : IsSplit cpu_config 29 (logical_parts cpu_config (pos 29))
split_example = logical_parts-IsSplit cpu_config 29 (omega arith) (omega arith)

sigsegv_example :
    (flag : Bool) × (translate_logical_address cpu_config (pos 6) block machine
      ≡ some (logical_parts cpu_config (pos 6), record machine { sigsegv = flag }))
    × ((flag ≡ true) ↔ ((false ≡ true) ⊎ (ltb_ℤ (pos (6 % 8)) (pos 4) ≡ false)))
sigsegv_example =
    translate_logical_address-sigsegv cpu_config 6 block machine segment (omega arith) refl

small-IsRegisters : IsRegisters (record { ax = 7; bx = 5; cx = 0; dx = 0 })
small-IsRegisters = record {
  ax = omega arith;
  bx = omega arith;
  cx = omega arith;
  dx = omega arith;
}

abbrev with_registers : Cpu
with_registers = record machine { registers = record { ax = 7; bx = 5; cx = 0; dx = 0 } }

abbrev first_byte : Text → ℕ
first_byte [] = 0
first_byte (b ∷ t) = b

set_example :
    (cpu' : Cpu) × (execute_instruction commons cpu_config
        (config (codes "CLOCK"))
        (record { interrupted = false; hit = moment 1; now = moment 2 })
        (codes "SET" ∷ codes "BX" ∷ codes "2" ∷ [])
        block
        with_registers
        loaded_memory
      ≡ some (cpu', loaded_memory))
    × (find_value_of_register (codes "BX") cpu'.registers ≡ 7)
    × ((find_value_of_register (codes "BX") cpu'.registers ≡ 2) ↔ (◌≡◌ {A = ℕ} 5 0))
    × (find_value_of_register (codes "AX") cpu'.registers ≡ 7)
    × (record cpu' { registers = with_registers.registers } ≡ with_registers)
unfolding atoi find_value_of_register strcmp_eq
set_example =
    execute_instruction-set commons cpu_config (config (codes "CLOCK"))
      (record { interrupted = false; hit = moment 1; now = moment 2 }) (codes "BX") (codes "2")
      (codes "AX") [] 2 block with_registers loaded_memory (inr (inl refl)) small-IsRegisters refl
      (omega arith) (λ e. omega (arith, ap first_byte e))

add_example :
    (find_value_of_register (codes "BX") (
        add_two_registers commons
          (codes "BX")
          (codes "AX")
          (record { ax = 7; bx = 5; cx = 0; dx = 0 }))
      ≡ (find_value_of_register (codes "BX") (record { ax = 7; bx = 5; cx = 0; dx = 0 })
          + find_value_of_register (codes "AX") (record { ax = 7; bx = 5; cx = 0; dx = 0 }))
        % 2 ^ 32)
    × (find_value_of_register (codes "AX") (
          add_two_registers commons
            (codes "BX")
            (codes "AX")
            (record { ax = 7; bx = 5; cx = 0; dx = 0 }))
        ≡ find_value_of_register (codes "AX") (record { ax = 7; bx = 5; cx = 0; dx = 0 }))
unfolding atoi find_value_of_register strcmp_eq
add_example =
    add_two_registers_lem commons (codes "BX") (codes "AX") (codes "AX")
      (record { ax = 7; bx = 5; cx = 0; dx = 0 }) (inr (inl refl)) (inl refl) small-IsRegisters refl
      (λ e. omega (arith, ap first_byte e))
