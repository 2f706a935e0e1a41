-- ===== src/Memory/Handlers.antt =====
-- `attend_cpu` and `attend_kernel` of memoria/src/memoria.c: a request that has been read from the
-- socket, and the reply that is sent. The mutex of the module makes each case one step.
pub mod PageFault
pub mod Moves
use geck.Prelude.{
  ℕ, suc, ℤ, pos, negsuc, eqb_ℤ, List, [], ◌∷◌, Bool, true, Option, none, some, if◌then◌else◌, ◌==◌,
  length, get_elem?, list_get, set, ◌>>=◌, ◌>>◌,
}
use geck.Shared.{Pcb}
use geck.Memory.{MemoryConfig, PageRow, PageTable, Memory}
use geck.Memory.Bitmap.{find_page_free, set_bit}
use geck.Memory.Store.{read_page_swap, write_frame, read_value_in_principal_memory}
use geck.Memory.Tables.{
  get_page_table_by_index, get_row, get_frame_number_ram, init_process_structures, delete_process,
}
use geck.Memory.Clock.{use_replacement_algorithm, add_page_to_clock_structure}
use geck.Memory.Access.{save_value_in_memory, update_page_use}

pub data CpuRequest : Type 0 where
  send_config : CpuRequest
  -- the block, the page and the segment
  frame_request : Pcb → ℤ → ℤ → CpuRequest
  -- the physical address, the value, the page table's index and the process
  mov_out : ℤ → ℕ → ℤ → ℤ → CpuRequest
  -- the physical address, the block, the segment and the page
  mov_in : ℤ → Pcb → ℤ → ℤ → CpuRequest
  unknown : CpuRequest

pub data CpuReply : Type 0 where
  config_memory : ℕ → ℕ → CpuReply
  page_fault : ℤ → CpuReply
  frame_response : ℤ → CpuReply
  mov_out_ok : CpuReply
  mov_in_ok : ℕ → CpuReply
  nothing : CpuReply

unfoldable pub attend_cpu : MemoryConfig → CpuRequest → Memory → Option (CpuReply × Memory)
attend_cpu c send_config s = some (config_memory c.tam_pagina c.entradas_por_tabla, s)
attend_cpu c (frame_request pcb page_number segment_number) s = do
  frame ← get_frame_number_ram pcb page_number segment_number s
  some (if eqb_ℤ frame (negsuc 0) then page_fault frame else frame_response frame, s)
attend_cpu c (mov_out physical_address value segment_index pid) s = do
  s₁ ← save_value_in_memory c physical_address value segment_index s
  some (mov_out_ok, s₁)
attend_cpu c (mov_in physical_address pcb segment_number page_number) s = do
  s₁ ← update_page_use pcb segment_number page_number s
  value ← read_value_in_principal_memory physical_address s₁
  some (mov_in_ok value, s₁)
attend_cpu c unknown s = some (nothing, s)

pub data KernelRequest : Type 0 where
  init_process_structures_memory : Pcb → KernelRequest
  -- the block, the segment and the page
  request_page_fault : Pcb → ℤ → ℤ → KernelRequest
  end_structures : Pcb → KernelRequest
  unknown : KernelRequest

pub data KernelReply : Type 0 where
  init_process_structures_memory_response : Pcb → KernelReply
  response_page_fault : Pcb → KernelReply
  nothing : KernelReply

-- The frame for the page: that of a victim once the process has all its frames, else a free one.
unfoldable pub choose_frame : MemoryConfig → ℤ → Memory → Option (ℤ × Memory)
choose_frame c process_id s = do
  clock ← s.clock_structures process_id
  if length clock.frames_in_memory == c.marcos_por_proceso
      then use_replacement_algorithm c process_id s
      else (do frame ← find_page_free c s.bitmap_memory; some (frame, s))

-- The row of a page that has come into a frame.
abbrev pub loaded : ℤ → PageRow → PageRow
loaded frame row = record row { frame_number = frame; presence = true; use_bit = true }

-- The page is copied from the swap file into the frame, and enters the process's clock.
unfoldable pub load_page : MemoryConfig → ℤ → ℕ → ℤ → Memory → Option Memory
load_page c process_id page frame s = do
  row ← get_elem? s.rows page
  bytes ← read_page_swap c row.swap_position s
  s₁ ← write_frame c frame bytes s
  bitmap ← set_bit s₁.bitmap_memory frame
  add_page_to_clock_structure process_id frame page row.swap_position
      (record s₁ { bitmap_memory = bitmap; rows = set s₁.rows page (loaded frame row) })

-- The rest of REQUEST_PAGE_FAULT, behind the search for the table: with none nothing is answered.
unfoldable pub solve_in_table :
    MemoryConfig → Pcb → Option PageTable → ℤ → Memory → Option (KernelReply × Memory)
solve_in_table c pcb none page_number s = some (nothing, s)
solve_in_table c pcb (some table) page_number s = do
  page ← list_get table.pages_list page_number
  (frame, s₁) ← choose_frame c pcb.process_id s
  s₂ ← load_page c pcb.process_id page frame s₁
  some (response_page_fault pcb, s₂)

unfoldable pub solve_page_fault :
    MemoryConfig → Pcb → ℤ → ℤ → Memory → Option (KernelReply × Memory)
unfolding solve_in_table
solve_page_fault c pcb segment_number page_number s = do
  segment ← list_get pcb.segment_table segment_number
  solve_in_table c pcb (get_page_table_by_index segment.index_page s) page_number s

unfoldable pub attend_kernel : MemoryConfig → KernelRequest → Memory → Option (KernelReply × Memory)
attend_kernel c (init_process_structures_memory pcb) s = do
  (pcb', s₁) ← init_process_structures c pcb s
  some (init_process_structures_memory_response pcb', s₁)
attend_kernel c (request_page_fault pcb segment_number page_number) s =
    solve_page_fault c pcb segment_number page_number s
attend_kernel c (end_structures pcb) s = do s₁ ← delete_process pcb s; some (nothing, s₁)
attend_kernel c unknown s = some (nothing, s)
