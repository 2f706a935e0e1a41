-- ===== src/Kernel/Reception.antt =====
-- `receive_console` and `pcb_init` of kernel/src/kernel.c: what the thread of a console reads from its socket.
pub mod Programs
use geck.Prelude.{
  ℕ, ℤ, pos, negsuc, eqb_ℤ, List, [], Option, none, some, Bool, if◌then◌else◌, ◌>>=◌,
}
use geck.Shared.Strings.{Text}
use geck.Shared.{
  OperationCode, init_process, io_screen_response, io_keyboard_response, operation_int, Pcb,
}
use geck.Shared.Wire.{read_string_array, receive_operation, receive_buffer, receive_pcb}
use geck.Kernel.{KernelConfig, Kernel, Outcome, fault, done}
use geck.Kernel.Ready
use geck.Kernel.Ready.{io_response}

-- How a round of `receive_console` ends: the thread is gone, or it is at the next one, with what it
-- has not read yet.
pub data Received : Type 0 where
  closed : Received
  received : Outcome → List ℕ → Received

-- The reading of `pcb_init`; what it makes of it is `Ready.init_process`.
unfoldable pub pcb_init : List ℕ → Option ((List Text × List Text) × List ℕ)
pcb_init channel = do
  (buffer, rest) ← receive_buffer channel
  (instructions, rest₁) ← read_string_array buffer
  (segments, rest₂) ← read_string_array rest₁
  some ((instructions, segments), rest)

abbrev pub is_code : ℤ → OperationCode → Bool
is_code code operation = eqb_ℤ code (pos (operation_int operation))

module _ (same : Text → Text → Bool) (c : KernelConfig) (client_socket : ℤ) where
  -- INIT_PROCESS up to the wait for `sem_schedule_ready`, behind the reading of the program.
  abbrev pub start_program : Option ((List Text × List Text) × List ℕ) → Kernel → Received
  start_program none k = received fault []
  start_program (some ((instructions, segments), rest)) k =
      received (Ready.init_process same c client_socket instructions segments k) rest

  -- IO_SCREEN_RESPONSE and IO_KEYBOARD_RESPONSE, behind the reading of the process.
  abbrev pub resume : Option (Pcb × List ℕ) → Kernel → Received
  resume none k = received fault []
  resume (some (pcb, rest)) k = received (io_response same c pcb k) rest

  -- A round; a code that is not known changes nothing.
  unfoldable pub receive_console : List ℕ → Kernel → Received
  receive_console channel k =
      let (code, rest) = receive_operation channel in
      if is_code code init_process
      then start_program (pcb_init rest) k
      else if is_code code io_screen_response
      then resume (receive_pcb rest) k
      else if is_code code io_keyboard_response
      then resume (receive_pcb rest) k
      else if eqb_ℤ code (negsuc 0)
      then closed
      else received (done k []) rest
