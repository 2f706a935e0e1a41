-- ===== src/Shared.antt =====
-- shared/include/shared.h and the instruction table of shared/src/shared.c: the data that the
-- modules exchange. A `char*` is the list of its bytes before the terminator.
pub mod Strings
pub mod Wire
use geck.Prelude.{ℕ, zero, suc, ℤ, pos, negsuc, List, [], ◌∷◌, Bool, if◌then◌else◌}
use Strings.{Text, codes, strcmp_eq, atoi}

-- `operation_code`; `pack` is PACKAGE.
pub data OperationCode : Type 0 where
  pack input_output_interruption io_screen io_keyboard io_default : OperationCode
  io_screen_response io_keyboard_response io_default_response init_process : OperationCode
  init_structures config_memory execute_interruption execute_pcb send_config : OperationCode
  end_console end_process end_structures dir_fisica tabla_pags : OperationCode
  request_value_from_physics_addr response_value_from_physics_addr : OperationCode
  init_process_structures_memory init_process_structures_memory_response : OperationCode
  init_structures_memory init_structures_memory_response seg_fault : OperationCode
  end_console_seg_fault frame_request frame_response request_page_fault : OperationCode
  response_page_fault page_fault mov_out mov_out_ok mov_out_error mov_in : OperationCode
  mov_in_ok mov_in_error : OperationCode

-- The value of an enumerator: its position.
unfoldable pub operation_int : OperationCode → ℕ
operation_int pack = 0
operation_int input_output_interruption = 1
operation_int io_screen = 2
operation_int io_keyboard = 3
operation_int io_default = 4
operation_int io_screen_response = 5
operation_int io_keyboard_response = 6
operation_int io_default_response = 7
operation_int init_process = 8
operation_int init_structures = 9
operation_int config_memory = 10
operation_int execute_interruption = 11
operation_int execute_pcb = 12
operation_int send_config = 13
operation_int end_console = 14
operation_int end_process = 15
operation_int end_structures = 16
operation_int dir_fisica = 17
operation_int tabla_pags = 18
operation_int request_value_from_physics_addr = 19
operation_int response_value_from_physics_addr = 20
operation_int init_process_structures_memory = 21
operation_int init_process_structures_memory_response = 22
operation_int init_structures_memory = 23
operation_int init_structures_memory_response = 24
operation_int seg_fault = 25
operation_int end_console_seg_fault = 26
operation_int frame_request = 27
operation_int frame_response = 28
operation_int request_page_fault = 29
operation_int response_page_fault = 30
operation_int page_fault = 31
operation_int mov_out = 32
operation_int mov_out_ok = 33
operation_int mov_out_error = 34
operation_int mov_in = 35
operation_int mov_in_ok = 36
operation_int mov_in_error = 37

-- `pcb_status`. An `int` that is no enumerator can be read into it, and is kept.
pub data PcbStatus : Type 0 where
  new ready blocked running exit : PcbStatus
  unregistered : ℤ → PcbStatus

unfoldable pub status_int : PcbStatus → ℤ
status_int new = pos 0
status_int ready = pos 1
status_int blocked = pos 2
status_int running = pos 3
status_int exit = pos 4
status_int (unregistered z) = z

unfoldable pub status_of_int : ℤ → PcbStatus
status_of_int (pos zero) = new
status_of_int (pos (suc zero)) = ready
status_of_int (pos (suc (suc zero))) = blocked
status_of_int (pos (suc (suc (suc zero)))) = running
status_of_int (pos (suc (suc (suc (suc zero))))) = exit
status_of_int (pos (suc (suc (suc (suc (suc n)))))) =
    unregistered (pos (suc (suc (suc (suc (suc n))))))
status_of_int (negsuc n) = unregistered (negsuc n)

unfoldable pub get_state_name : PcbStatus → Text
get_state_name new = codes "NEW"
get_state_name ready = codes "READY"
get_state_name blocked = codes "BLOCKED"
get_state_name running = codes "RUNNING"
get_state_name exit = codes "EXIT"
get_state_name (unregistered z) = codes "ESTADO NO REGISTRADO"

-- `t_segment_table`, one row of the segment table
pub record Segment : Type 0 where
  pub index_page : ℤ
  pub number : ℤ
  pub size : ℤ

-- `uint32_t cpu_registers[4]`, at the indices AX, BX, CX and DX
pub record Registers : Type 0 where
  pub ax : ℕ
  pub bx : ℕ
  pub cx : ℕ
  pub dx : ℕ

-- `t_pcb`
pub record Pcb : Type 0 where
  pub process_id : ℤ
  pub size : ℤ
  pub program_counter : ℤ
  pub client_socket : ℤ
  pub cpu_registers : Registers
  pub instructions : List Text
  pub status : PcbStatus
  pub segment_table : List Segment

unfoldable pub change_pcb_state_to : Pcb → PcbStatus → Pcb
change_pcb_state_to pcb status = record pcb { status = status }

-- The codes of the instructions; `bad_key` is BADKEY.
pub data Key : Type 0 where
  i_set i_add i_io i_mov_in i_mov_out i_exit bad_key : Key

abbrev pub lookuptable : List (Text × Key)
lookuptable =
    (codes "SET", i_set)
    ∷ (codes "ADD", i_add)
    ∷ (codes "I/O", i_io)
    ∷ (codes "MOV_IN", i_mov_in)
    ∷ (codes "MOV_OUT", i_mov_out)
    ∷ (codes "EXIT", i_exit)
    ∷ []

unfoldable pub key_in : List (Text × Key) → Text → Key
key_in [] key = bad_key
key_in ((name, value) ∷ rest) key = if strcmp_eq name key then value else key_in rest key

unfoldable pub keyfromstring : Text → Key
unfolding key_in
keyfromstring = key_in lookuptable

-- The loop of `pcb_create` over the sizes of the segments, from the number `i` on.
unfoldable pub create_segments : ℕ → List Text → List Segment
create_segments i [] = []
create_segments i (size ∷ rest) =
    record { index_page = negsuc 0; number = pos i; size = atoi size }
    ∷ create_segments (suc i) rest

unfoldable pub pcb_create : List Text → ℤ → ℤ → List Text → Pcb
unfolding create_segments
pcb_create instructions client_socket pid segments = record {
  process_id = pid;
  size = pos 0;
  program_counter = pos 0;
  client_socket = client_socket;
  cpu_registers = record { ax = 0; bx = 0; cx = 0; dx = 0 };
  instructions = instructions;
  status = new;
  segment_table = create_segments 0 segments;
}
