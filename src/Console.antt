-- ===== src/Console.antt =====
-- consola/src/consola.c: a console sends a program to the kernel and answers its requests for the screen
-- and the keyboard. `same` is `string_equals_ignore_case`, and `split` is `string_split`.
pub mod Answers
pub mod Session
use geck.Prelude.{
  ℕ, zero, suc, ℤ, pos, negsuc, eqb_ℤ, word, signed, List, [], ◌∷◌, ◌++◌, Bool, ◌||◌, Option, none,
  some, if◌then◌else◌, ◌>>=◌, ◌>>◌,
}
use geck.Shared.Strings.{Text, codes, strcmp_eq, atoi}
use geck.Shared.{
  OperationCode, io_screen, io_keyboard, io_screen_response, io_keyboard_response, init_process,
  end_console, end_console_seg_fault, operation_int, Registers, Pcb,
}
use geck.Shared.Wire.{
  create_package, add_string_array_to_package, send_package, send_pcb_package, read_pcb,
  read_string, receive_operation, receive_buffer,
}

-- A line of `printf`: the register's name and the value, as `%d` shows it.
pub record Line : Type 0 where
  pub name : Text
  pub value : ℤ

-- The socket in both directions, what has been printed, the numbers that `scanf` will read, and the
-- variable `value`, which has none at first.
pub record Console : Type 0 where
  pub incoming : List ℕ
  pub outgoing : List ℕ
  pub printed : List Line
  pub keyboard : List ℤ
  pub value : Option ℤ

unfoldable pub parse_lines : (Text → Text → List Text) → Text → List Text
parse_lines split buffer = split buffer (codes "\n")

unfoldable pub send_process_package : List ℕ → List Text → List Text → List ℕ
send_process_package connection instructions segments =
    send_package
      (add_string_array_to_package
        (add_string_array_to_package (create_package init_process) instructions) segments)
      connection

-- `cpu_registers[i]`; the array has four elements.
unfoldable pub register_at : Registers → ℤ → Option ℕ
register_at r (pos zero) = some r.ax
register_at r (pos (suc zero)) = some r.bx
register_at r (pos (suc (suc zero))) = some r.cx
register_at r (pos (suc (suc (suc zero)))) = some r.dx
register_at r (pos (suc (suc (suc (suc n))))) = none
register_at r (negsuc n) = none

-- The index is the number that the name begins with.
unfoldable pub show_on_screen_pcb_register : (Text → Text → Bool) → Pcb → Text → Option (List Line)
show_on_screen_pcb_register same pcb parameter =
    let shown = register_at pcb.cpu_registers (atoi parameter) >>= λ v.
    some (record { name = parameter; value = signed v } ∷ []) in
    if same parameter (codes "AX")
    then shown
    else if same parameter (codes "BX")
    then shown
    else if same parameter (codes "CX")
    then shown
    else if same parameter (codes "DX")
    then shown
    else some []

-- The register of a name gets the word of an `int`; with another name none does.
unfoldable pub store_typed : Pcb → Text → ℤ → Pcb
store_typed pcb parameter value =
    let r = pcb.cpu_registers in
    if strcmp_eq parameter (codes "AX")
    then record pcb { cpu_registers = record r { ax = word value } }
    else if strcmp_eq parameter (codes "BX")
    then record pcb { cpu_registers = record r { bx = word value } }
    else if strcmp_eq parameter (codes "CX")
    then record pcb { cpu_registers = record r { cx = word value } }
    else if strcmp_eq parameter (codes "DX")
    then record pcb { cpu_registers = record r { dx = word value } }
    else pcb

-- `scanf("%d", &value)`: with no number left the variable stays as it is.
unfoldable pub scan_value : Console → Console
scan_value s = elim s.keyboard [
  | [] ↦ s
  | ◌∷◌ v rest ↦ record s { keyboard = rest; value = some v }
]

-- The case IO_SCREEN, behind the operation code.
unfoldable pub answer_screen : (Text → Text → Bool) → Console → Option Console
answer_screen same s = do
  (buffer, rest) ← receive_buffer s.incoming
  (pcb, rest₁) ← read_pcb buffer
  (device, rest₂) ← read_string rest₁
  (parameter, rest₃) ← read_string rest₂
  lines ← show_on_screen_pcb_register same pcb parameter
  some (record s {
    incoming = rest;
    printed = s.printed ++ lines;
    outgoing = send_pcb_package s.outgoing pcb io_screen_response;
  })

-- The case IO_KEYBOARD. A value that was never read is undefined.
unfoldable pub answer_keyboard : Console → Option Console
answer_keyboard s = do
  (buffer, rest) ← receive_buffer s.incoming
  (pcb, rest₁) ← read_pcb buffer
  (device, rest₂) ← read_string rest₁
  (parameter, rest₃) ← read_string rest₂
  let s₁ = scan_value s
  value ← s₁.value
  some (record s₁ {
    incoming = rest;
    outgoing = send_pcb_package s₁.outgoing (store_typed pcb parameter value) io_keyboard_response;
  })

-- How a round of the loop of `main` ends: `end_while` is 1 in `ends`.
pub data Turn : Type 0 where
  fault : Turn
  goes : Console → Turn
  ends : Console → Turn

abbrev pub goes_on : Option Console → Turn
goes_on none = fault
goes_on (some s) = goes s

abbrev pub is_code : ℤ → OperationCode → Bool
is_code code operation = eqb_ℤ code (pos (operation_int operation))

-- A round of the loop. The other cases end it: END_CONSOLE, END_CONSOLE_SEG_FAULT, -1 and any code.
unfoldable pub turn : (Text → Text → Bool) → Console → Turn
turn same s =
    let (code, rest) = receive_operation s.incoming in
    let s₁ = record s { incoming = rest } in
    if is_code code io_screen
    then goes_on (answer_screen same s₁)
    else if is_code code io_keyboard
    then goes_on (answer_keyboard s₁)
    else ends s₁

-- How the loop ends: `unfinished` when the rounds that are given are not enough.
pub data Run : Type 0 where
  faulted unfinished : Run
  ended : Console → Run

-- What a round leads to.
abbrev pub continue : (Console → Run) → Turn → Run
continue later fault = faulted
continue later (goes s) = later s
continue later (ends s) = ended s

-- The loop `while (end_while == 0)`.
unfoldable pub main_loop : (Text → Text → Bool) → ℕ → Console → Run
main_loop same zero s = unfinished
main_loop same (suc rounds) s = continue (main_loop same rounds) (turn same s)

-- What `main` sends first: the lines of the file, and the segments of the configuration.
unfoldable pub start : (Text → Text → List Text) → Text → List Text → Console → Console
start split buffer segments s = record s {
  outgoing = send_process_package s.outgoing (parse_lines split buffer) segments;
}
