-- ===== src/Shared/Wire/Channel.antt =====
-- What one module sends, another receives: whole packages over a channel.
use geck.Prelude.{
  ℕ, ◌^◌, ◌<◌, ◌≡◌, refl, ap, subst, pos, List, [], ◌++◌, append-nil, arith, length, some, Bool,
}
use geck.Shared.Strings.{Text}
use geck.Shared.{OperationCode, pack, operation_int, Pcb}
use geck.Shared.Wire.{
  Package, create_package, add_pcb_to_package, serialize_package, send_package, send_pcb_package,
  with_terminator, io_code, io_package, send_pcb_io_package, read_string, read_pcb,
  receive_operation, receive_buffer, receive_pcb,
}
use geck.Shared.Wire.Bytes.{
  IsFramed, take_framed, create_package-IsFramed, int_bytes, value_bytes, pcb_bytes, add_pcb-Adds,
  parameter_bytes, io_package-Adds,
}
use geck.Shared.Wire.PcbRoundTrip.{
  IsPcb, IsText, read_int_bytes, read_bytes_append, read_pcb_bytes, read_string_value,
}

operation_in : (c : OperationCode) → operation_int c < 38
unfolding operation_int
operation_in pack = omega arith
operation_in _ = omega arith

-- What `serialize_package` puts before the stream.
abbrev pub framed_bytes : OperationCode → List ℕ → List ℕ
framed_bytes code stream =
    int_bytes (pos (operation_int code)) ++ (int_bytes (pos (length stream)) ++ stream)

pub serialize_framed :
    (p : Package) → IsFramed p → serialize_package p ≡ framed_bytes p.op_code p.stream
unfolding serialize_package
serialize_framed p h =
    rw (take_framed p h)
      (ap (λ n. int_bytes (pos (operation_int p.op_code)) ++ (int_bytes (pos n) ++ p.stream)) h)

-- The operation code of a framed stream comes out first.
pub receive_operation_framed :
    (code : OperationCode) (stream rest : List ℕ)
    → receive_operation (framed_bytes code stream ++ rest)
      ≡ (pos (operation_int code), int_bytes (pos (length stream)) ++ (stream ++ rest))
unfolding receive_operation
receive_operation_framed code stream rest = rw (
  read_int_bytes (pos (operation_int code)) (int_bytes (pos (length stream)) ++ (stream ++ rest))
      (omega (arith, operation_in code)),
  receive_operation,
)

pub receive_buffer_framed :
    (stream rest : List ℕ)
    → length stream < 2 ^ 31
    → receive_buffer (int_bytes (pos (length stream)) ++ (stream ++ rest)) ≡ some (stream, rest)
unfolding receive_buffer
receive_buffer_framed stream rest h =
    rw (read_int_bytes (pos (length stream)) (stream ++ rest) h, read_bytes_append stream rest)

-- The bytes of one package behind what the channel holds already.
pub sent_pcb :
    (channel : List ℕ) (pcb : Pcb) (code : OperationCode)
    → send_pcb_package channel pcb code ≡ channel ++ framed_bytes code (pcb_bytes pcb)
unfolding send_pcb_package send_package create_package
sent_pcb channel pcb code =
    let a = add_pcb-Adds (create_package code) pcb (create_package-IsFramed code) in
    rw (
      serialize_framed (add_pcb_to_package (create_package code) pcb) a.framed,
      a.stream_eq,
      a.same_code,
    )

-- A block that `send_pcb_package` sends under a code is what `receive_operation` and then
-- `receive_pcb` give back on the other side, and the bytes sent after it stay unread. The block's
-- fields fit their C types, and its bytes fit an `int`.
pub receive-send_pcb :
    (pcb : Pcb) (code : OperationCode) (rest : List ℕ)
    → IsPcb pcb
    → length (pcb_bytes pcb) < 2 ^ 31
    → let (operation, payload) = receive_operation (send_pcb_package [] pcb code ++ rest) in
      (operation ≡ pos (operation_int code)) × (receive_pcb payload ≡ some (pcb, rest))
unfolding receive_pcb
receive-send_pcb pcb code rest h fits =
    let exact : read_pcb (pcb_bytes pcb) ≡ some (pcb, []) =
      rw (append-nil (pcb_bytes pcb)) at (read_pcb_bytes pcb [] h) in
    rw (sent_pcb [] pcb code, receive_operation_framed code (pcb_bytes pcb) rest)
      (refl, rw (receive_buffer_framed (pcb_bytes pcb) rest fits, exact))

abbrev pub io_stream : Pcb → Text → Text → List ℕ
io_stream pcb device parameter =
    pcb_bytes pcb ++ (value_bytes (with_terminator device) ++ parameter_bytes device parameter)

pub sent_io :
    (pcb : Pcb) (device parameter : Text) (request : Bool)
    → send_pcb_io_package [] pcb device parameter request
      ≡ framed_bytes (io_code device request) (io_stream pcb device parameter)
unfolding send_pcb_io_package send_package create_package
sent_io pcb device parameter request =
    let a = io_package-Adds pcb device parameter request in
    rw (
      serialize_framed (io_package pcb device parameter request) a.framed,
      a.stream_eq,
      a.same_code,
    )

pub read_string_last :
    (t : Text) → IsText t → read_string (value_bytes (with_terminator t)) ≡ some (t, [])
read_string_last t h =
    subst (λ b. read_string b ≡ some (t, [])) (append-nil (value_bytes (with_terminator t)))
      (read_string_value t [] h)
