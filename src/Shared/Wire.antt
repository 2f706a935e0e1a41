-- ===== src/Shared/Wire.antt =====
-- The serialisation of shared/src/shared.c: packages that are sent, and buffers that are read.
-- A byte is a number below 256; an `int` is four bytes, the lowest first. The pointer
-- `buffer + *desp` of a reader is the list of the bytes from there on.
pub mod Bytes
pub mod PcbRoundTrip
pub mod Channel
use geck.Prelude.{
  ℕ, zero, suc, ◌+◌, ◌*◌, ◌/◌, ◌%◌, ◌^◌, ℤ, pos, negsuc, word, signed, List, [], ◌∷◌, ◌++◌, Bool,
  ◌||◌, if◌then◌else◌, leb, ◌==◌, Option, none, some, length, take, drop, ◌>>=◌, ◌>>◌, guard,
}
use geck.Shared.Strings.{Text, codes, strcmp_eq, atoi}
use geck.Shared.{
  OperationCode, io_screen, io_keyboard, io_default, io_screen_response, io_keyboard_response,
  operation_int, status_int, status_of_int, Segment, Registers, Pcb,
}

-- `t_package` with its `t_buffer`: `size` is kept beside the stream.
pub record Package : Type 0 where
  pub op_code : OperationCode
  pub size : ℕ
  pub stream : List ℕ

-- The four bytes of a machine word.
abbrev pub word_bytes : ℕ → List ℕ
word_bytes w = w % 256 ∷ w / 256 % 256 ∷ w / 2 ^ 16 % 256 ∷ w / 2 ^ 24 % 256 ∷ []

unfoldable pub create_package : OperationCode → Package
create_package code = record { op_code = code; size = 0; stream = [] }

-- `realloc` to `size + n` bytes and `memcpy` of n bytes to the offset `size`.
abbrev pub put_bytes : Package → List ℕ → Package
put_bytes p bytes = record p {
  size = p.size + length bytes;
  stream = take p.size p.stream ++ bytes;
}

unfoldable pub add_int_to_package : Package → ℤ → Package
add_int_to_package p x = put_bytes p (word_bytes (word x))

unfoldable pub add_uint32_to_package : Package → ℕ → Package
add_uint32_to_package p x = put_bytes p (word_bytes x)

-- The size, then the value; the caller passes a string with its terminator.
unfoldable pub add_value_to_package : Package → List ℕ → Package
add_value_to_package p value = put_bytes p (word_bytes (word (pos (length value))) ++ value)

abbrev pub with_terminator : Text → List ℕ
with_terminator t = t ++ (0 ∷ [])

unfoldable pub add_strings : Package → List Text → Package
add_strings p [] = p
add_strings p (t ∷ rest) = add_strings (add_value_to_package p (with_terminator t)) rest

unfoldable pub add_string_array_to_package : Package → List Text → Package
add_string_array_to_package p arr = add_strings (add_int_to_package p (pos (length arr))) arr

unfoldable pub add_registers_to_package : Package → Registers → Package
add_registers_to_package p r =
    add_uint32_to_package
      (add_uint32_to_package (add_uint32_to_package (add_uint32_to_package p r.ax) r.bx) r.cx) r.dx

unfoldable pub add_segments : Package → List Segment → Package
add_segments p [] = p
add_segments p (s ∷ rest) =
    add_segments
      (add_int_to_package (add_int_to_package (add_int_to_package p s.number) s.size) s.index_page)
      rest

unfoldable pub add_segment_table_to_package : Package → List Segment → Package
add_segment_table_to_package p segments =
    add_segments (add_int_to_package p (pos (length segments))) segments

unfoldable pub add_pcb_to_package : Package → Pcb → Package
add_pcb_to_package p pcb =
    let p₁ = add_int_to_package p pcb.process_id in
    let p₂ = add_int_to_package p₁ (status_int pcb.status) in
    let p₃ = add_int_to_package p₂ pcb.size in
    let p₄ = add_string_array_to_package p₃ pcb.instructions in
    let p₅ = add_registers_to_package p₄ pcb.cpu_registers in
    let p₆ = add_int_to_package p₅ pcb.program_counter in
    let p₇ = add_int_to_package p₆ pcb.client_socket in
    add_segment_table_to_package p₇ pcb.segment_table

-- The code, the size and the first `size` bytes of the stream.
unfoldable pub serialize_package : Package → List ℕ
serialize_package p =
    word_bytes (word (pos (operation_int p.op_code)))
    ++ (word_bytes (word (pos p.size)) ++ take p.size p.stream)

-- What a peer has sent and this end has not read yet.
unfoldable pub send_package : Package → List ℕ → List ℕ
send_package p channel = channel ++ serialize_package p

unfoldable pub send_pcb_package : List ℕ → Pcb → OperationCode → List ℕ
send_pcb_package channel pcb code =
    send_package (add_pcb_to_package (create_package code) pcb) channel

-- `request` is `status == REQUEST`.
unfoldable pub io_code : Text → Bool → OperationCode
io_code device request =
    if strcmp_eq device (codes "PANTALLA")
    then (if request then io_screen else io_screen_response)
    else if strcmp_eq device (codes "TECLADO")
    then (if request then io_keyboard else io_keyboard_response)
    else io_default

abbrev pub is_console_device : Text → Bool
is_console_device device = strcmp_eq device (codes "PANTALLA") || strcmp_eq device (codes "TECLADO")

unfoldable pub io_package : Pcb → Text → Text → Bool → Package
io_package pcb device parameter request =
    let p = add_pcb_to_package (create_package (io_code device request)) pcb in
    let q = add_value_to_package p (with_terminator device) in
    if is_console_device device
    then add_value_to_package q (with_terminator parameter)
    else add_int_to_package q (atoi parameter)

unfoldable pub send_pcb_io_package : List ℕ → Pcb → Text → Text → Bool → List ℕ
send_pcb_io_package channel pcb device parameter request =
    send_package (io_package pcb device parameter request) channel

-- A reader takes bytes from the front; `none` is a read past the end of the buffer.
abbrev pub Reader : Type 0 → Type 0
Reader A = List ℕ → Option (A × List ℕ)

unfoldable pub read_uint32 : Reader ℕ
read_uint32 (a ∷ b ∷ c ∷ d ∷ rest) = some (a + b * 2 ^ 8 + c * 2 ^ 16 + d * 2 ^ 24, rest)
read_uint32 _ = none

unfoldable pub read_int : Reader ℤ
read_int buffer = do (w, rest) ← read_uint32 buffer; some (signed w, rest)

-- The characters of a block before its terminator. A block with no terminator is a fault here;
-- the source would run past its end at the first use.
unfoldable pub c_string : List ℕ → Option Text
c_string [] = none
c_string (zero ∷ rest) = some []
c_string (suc c ∷ rest) = do t ← c_string rest; some (suc c ∷ t)

-- `memcpy` of n bytes from the front.
unfoldable pub read_bytes : ℕ → Reader (List ℕ)
read_bytes n buffer = do guard (leb n (length buffer)); some (take n buffer, drop n buffer)

abbrev pub to_size : ℤ → Option ℕ
to_size (pos n) = some n
to_size (negsuc n) = none

-- A negative size is no size that `malloc` and `memcpy` can serve.
unfoldable pub read_string : Reader Text
read_string buffer = do
  (size, rest) ← read_int buffer
  n ← to_size size
  (block, rest') ← read_bytes n rest
  t ← c_string block
  some (t, rest')

unfoldable pub read_strings : ℕ → Reader (List Text)
read_strings zero buffer = some ([], buffer)
read_strings (suc n) buffer = do
  (t, rest) ← read_string buffer
  (ts, rest') ← read_strings n rest
  some (t ∷ ts, rest')

-- A negative length makes `arr[length] = NULL` write outside the array.
unfoldable pub read_string_array : Reader (List Text)
read_string_array buffer = do
  (length, rest) ← read_int buffer
  n ← to_size length
  read_strings n rest

unfoldable pub read_segment : Reader Segment
read_segment buffer = do
  (number, rest₁) ← read_int buffer
  (size, rest₂) ← read_int rest₁
  (index_page, rest₃) ← read_int rest₂
  some (record { index_page = index_page; number = number; size = size }, rest₃)

unfoldable pub read_segments : ℕ → Reader (List Segment)
read_segments zero buffer = some ([], buffer)
read_segments (suc n) buffer = do
  (s, rest) ← read_segment buffer
  (ss, rest') ← read_segments n rest
  some (s ∷ ss, rest')

-- The rounds of `for (i = 0; i < s; i++)`: none for a negative `s`.
abbrev pub rounds : ℤ → ℕ
rounds (pos n) = n
rounds (negsuc n) = 0

unfoldable pub read_registers : Reader Registers
read_registers buffer = do
  (ax, rest₁) ← read_uint32 buffer
  (bx, rest₂) ← read_uint32 rest₁
  (cx, rest₃) ← read_uint32 rest₂
  (dx, rest₄) ← read_uint32 rest₃
  some (record { ax = ax; bx = bx; cx = cx; dx = dx }, rest₄)

unfoldable pub read_pcb : Reader Pcb
read_pcb buffer = do
  (process_id, rest₁) ← read_int buffer
  (status, rest₂) ← read_int rest₁
  (size, rest₃) ← read_int rest₂
  (instructions, rest₄) ← read_string_array rest₃
  (registers, rest₅) ← read_registers rest₄
  (program_counter, rest₆) ← read_int rest₅
  (client_socket, rest₇) ← read_int rest₆
  (segments, rest₈) ← read_int rest₇
  (segment_table, rest₉) ← read_segments (rounds segments) rest₈
  some (
    record {
      process_id = process_id;
      size = size;
      program_counter = program_counter;
      client_socket = client_socket;
      cpu_registers = registers;
      instructions = instructions;
      status = status_of_int status;
      segment_table = segment_table;
    },
    rest₉,
  )

-- `recv` of an `int` with MSG_WAITALL. No bytes mean that the peer has closed, and the result is -1.
-- After one to three bytes the code has what the stack held in the rest of the `int`; such a channel is
-- not modelled, and the result is -1 here too.
unfoldable pub receive_operation : List ℕ → ℤ × List ℕ
receive_operation channel = elim (read_int channel) [
  | some (code, rest) ↦ (code, rest)
  | none ↦ (negsuc 0, [])
]

unfoldable pub receive_buffer : Reader (List ℕ)
receive_buffer channel = do (size, rest) ← read_int channel; n ← to_size size; read_bytes n rest

unfoldable pub receive_pcb : Reader Pcb
receive_pcb channel = do
  (buffer, rest) ← receive_buffer channel
  (pcb, unread) ← read_pcb buffer
  some (pcb, rest)
