-- ===== src/Memory.antt =====
-- memoria/include/memoria.h: the data of the memory module. A `Page_table_row*` is an address: the
-- page tables and the clock structures share the rows, which lie in one heap.
pub mod Bitmap
pub mod Store
pub mod Tables
pub mod Clock
pub mod Access
pub mod Handlers
pub mod View
use geck.Prelude.{
  ℕ, zero, suc, ◌+◌, ◌/◌, ◌<◌, ℤ, eqb_ℤ, List, Bool, Option, none, some, if◌then◌else◌,
}
use geck.Shared.Strings.{Text}

-- `Memory_config_struct`, without addresses, ports, delays and the path of the swap file
pub record MemoryConfig : Type 0 where
  pub tam_memoria : ℕ
  pub tam_pagina : ℕ
  pub entradas_por_tabla : ℕ
  pub algoritmo_reemplazo : Text
  pub marcos_por_proceso : ℕ
  pub tamanio_swap : ℕ

-- `Page_table_row`
pub record PageRow : Type 0 where
  pub frame_number : ℤ
  pub swap_position : ℤ
  pub presence : Bool
  pub use_bit : Bool
  pub modified : Bool

-- `Page_table_struct`; the pages are addresses of rows.
pub record PageTable : Type 0 where
  pub id : ℤ
  pub pages_list : List ℕ
  pub segment_num : ℤ

-- `row_struct_clock`; `page` is the address of a row.
pub record ClockRow : Type 0 where
  pub frame_number_in_memory : ℤ
  pub page : ℕ
  pub frame_number_in_swap : ℤ

-- `clock_struct`; its number and its pointer are `uint16_t`.
pub record ClockStruct : Type 0 where
  pub process_id : ℕ
  pub frames_in_memory : List ClockRow
  pub pointer : ℕ

-- The globals of the module, with the heap of page rows and the contents of the swap file.
pub record Memory : Type 0 where
  pub rows : List PageRow
  pub all_page_tables : List PageTable
  pub page_tables_counter : ℕ
  pub clock_structures : ℤ → Option ClockStruct
  pub principal_memory : List ℕ
  pub swap_file : List ℕ
  pub bitmap_swap : List Bool
  pub bitmap_memory : List Bool

-- `get_struct_clock` is the field itself; `set_struct_clock` puts a clock under the process's key.
unfoldable pub set_struct_clock : ℤ → ClockStruct → Memory → Memory
set_struct_clock process_id e_clock s = record s {
  clock_structures = λ pid. if eqb_ℤ process_id pid then some e_clock else s.clock_structures pid;
}

unfoldable pub del_struct_clock : ℤ → Memory → Memory
del_struct_clock process_id s = record s {
  clock_structures = λ pid. if eqb_ℤ process_id pid then none else s.clock_structures pid;
}
