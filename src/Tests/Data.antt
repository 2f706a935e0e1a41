-- ===== src/Tests/Data.antt =====
-- A process with one page, a memory of eight frames, and a swap file of eight pages of four bytes.
use geck.Prelude.{
  pos, negsuc, eqb_ℤ, List, [], ◌∷◌, Bool, true, false, none, some, replicate, if◌then◌else◌,
}
use geck.Shared.Strings.{Text}
use geck.Shared.{Pcb, PcbStatus, Segment}
use geck.Memory.{MemoryConfig, PageRow, PageTable, ClockRow, ClockStruct, Memory}

abbrev pub config : Text → MemoryConfig
config algorithm = record {
  tam_memoria = 32;
  tam_pagina = 4;
  entradas_por_tabla = 2;
  algoritmo_reemplazo = algorithm;
  marcos_por_proceso = 1;
  tamanio_swap = 32;
}

abbrev pub segment : Segment
segment = record { index_page = pos 0; number = pos 0; size = pos 4 }

abbrev pub process : List Text → Pcb
process instructions = record {
  process_id = pos 1;
  size = pos 0;
  program_counter = pos 0;
  client_socket = pos 5;
  cpu_registers = record { ax = 7; bx = 0; cx = 0; dx = 0 };
  instructions = instructions;
  status = PcbStatus.running;
  segment_table = segment ∷ [];
}

abbrev pub clock_of : List ClockRow → ClockStruct
clock_of frames = record { process_id = 1; frames_in_memory = frames; pointer = 0 }

abbrev pub table : PageTable
table = record { id = pos 0; pages_list = 0 ∷ []; segment_num = pos 0 }

abbrev pub memory : PageRow → List ClockRow → List Bool → Memory
memory row frames bits = record {
  rows = row ∷ [];
  all_page_tables = table ∷ [];
  page_tables_counter = 1;
  clock_structures = λ pid. if eqb_ℤ (pos 1) pid then some (clock_of frames) else none;
  principal_memory = replicate 32 0;
  swap_file = replicate 32 9;
  bitmap_swap = true ∷ replicate 7 false;
  bitmap_memory = bits;
}

-- The page before and after it has come into frame 0.
abbrev pub absent_row : PageRow
absent_row = record {
  frame_number = negsuc 0;
  swap_position = pos 0;
  presence = false;
  use_bit = false;
  modified = false;
}

abbrev pub present_row : PageRow
present_row = record {
  frame_number = pos 0;
  swap_position = pos 0;
  presence = true;
  use_bit = true;
  modified = true;
}

abbrev pub entry : ClockRow
entry = record { frame_number_in_memory = pos 0; page = 0; frame_number_in_swap = pos 0 }

abbrev pub empty_memory : Memory
empty_memory = memory absent_row [] (replicate 8 false)

abbrev pub loaded_memory : Memory
loaded_memory = memory present_row (entry ∷ []) (true ∷ replicate 7 false)
