-- ===== src/Kernel/Messages.antt =====
-- What `manage_dispatch` of kernel/src/kernel.c reads from the CPU's socket, before it acts on it.
pub mod FromCpu
use geck.Prelude.{ℕ, ℤ, pos, eqb_ℤ, List, Bool, ◌||◌, Option, none, some, if◌then◌else◌, ◌>>=◌}
use geck.Shared.{
  OperationCode, io_screen, io_keyboard, io_default, execute_interruption, seg_fault, page_fault,
  end_process, operation_int, Pcb,
}
use geck.Shared.Wire.{read_int, read_string, read_pcb, receive_operation, receive_buffer}
use geck.Kernel.Dispatch.{DispatchMessage}

abbrev pub is_code : ℤ → OperationCode → Bool
is_code code operation = eqb_ℤ code (pos (operation_int operation))

-- What stands behind the process, by the operation code. A code that is unknown is no message.
unfoldable pub read_message : ℤ → Pcb → List ℕ → Option (Option DispatchMessage)
read_message code pcb buffer =
    if is_code code io_screen || is_code code io_keyboard
    then (do
      (device, rest₁) ← read_string buffer
      (parameter, rest₂) ← read_string rest₁
      some (some (DispatchMessage.io_console pcb device parameter)))
    else if is_code code io_default
    then (do
      (device, rest₁) ← read_string buffer
      (parameter, rest₂) ← read_int rest₁
      some (some (DispatchMessage.io_default pcb device parameter)))
    else if is_code code execute_interruption
    then some (some (DispatchMessage.execute_interruption pcb))
    else if is_code code seg_fault
    then some (some (DispatchMessage.seg_fault pcb))
    else if is_code code page_fault
    then (do
      (segment, rest₁) ← read_int buffer
      (page, rest₂) ← read_int rest₁
      some (some (DispatchMessage.page_fault pcb segment page)))
    else if is_code code end_process
    then some (some (DispatchMessage.end_process pcb))
    else some none

unfoldable pub receive_dispatch : List ℕ → Option (Option DispatchMessage × List ℕ)
receive_dispatch channel = do
  let (code, payload) = receive_operation channel
  (buffer, rest) ← receive_buffer payload
  (pcb, behind) ← read_pcb buffer
  message ← read_message code pcb behind
  some (message, rest)
