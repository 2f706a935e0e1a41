-- ===== src/Kernel/Messages/FromCpu.antt =====
-- What the CPU sends when a process stops is what the kernel reads.
use geck.Prelude.{
  ℕ, ◌^◌, ◌<◌, ◌≡◌, refl, ap, ◌∙◌, subst, ℤ, pos, IsInt, List, [], ◌++◌, append-nil, true,
  Bool-cases, inl, inr, some, none, length, if◌then◌else◌, ◌>>=◌, Option,
}
use geck.Shared.Strings.{Text, codes, strcmp_eq, atoi}
use geck.Shared.{
  OperationCode, seg_fault, page_fault, end_process, execute_interruption, operation_int, Pcb,
}
use geck.Shared.Wire.{
  create_package, add_int_to_package, add_pcb_to_package, send_package, is_console_device, io_code,
  with_terminator, read_int,
}
use geck.Shared.Wire.Bytes.{
  int_bytes, value_bytes, parameter_bytes, pcb_bytes, Adds, Adds-trans, add_int-Adds, add_pcb-Adds,
  create_package-IsFramed,
}
use geck.Shared.Wire.PcbRoundTrip.{IsPcb, IsText, read_int_bytes, read_pcb_bytes, read_string_value}
use geck.Shared.Wire.Channel.{
  framed_bytes, serialize_framed, receive_operation_framed, receive_buffer_framed, io_stream,
  sent_io, sent_pcb, read_string_last,
}
use geck.Cpu.Cycle.{CpuMessage}
use geck.Cpu.Messages.{send_message}
use geck.Kernel.Dispatch.{DispatchMessage}
use geck.Kernel.Messages.{read_message, receive_dispatch}

-- The bytes of a page fault, behind the code and the size.
abbrev fault_stream : Pcb → ℤ → ℤ → List ℕ
fault_stream pcb segment page = pcb_bytes pcb ++ (int_bytes segment ++ int_bytes page)

-- The fields and texts of a message fit their C types, and the whole of it an `int`.
abbrev pub IsSendable : CpuMessage → Type 0
IsSendable (CpuMessage.end_process pcb) = IsPcb pcb × (length (pcb_bytes pcb) < 2 ^ 31)
IsSendable (CpuMessage.input_output pcb device parameter) =
    IsPcb pcb
    × IsText device
    × IsText parameter
    × IsInt (atoi parameter)
    × (length (io_stream pcb device parameter) < 2 ^ 31)
IsSendable (CpuMessage.page_fault pcb segment page) =
    IsPcb pcb × IsInt segment × IsInt page × (length (fault_stream pcb segment page) < 2 ^ 31)
IsSendable (CpuMessage.seg_fault pcb) = IsPcb pcb × (length (pcb_bytes pcb) < 2 ^ 31)
IsSendable (CpuMessage.execute_interruption pcb) = IsPcb pcb × (length (pcb_bytes pcb) < 2 ^ 31)
IsSendable CpuMessage.nothing = ⊥

-- What the kernel should understand: a request for a device that is no console's has a number in
-- place of the text.
abbrev pub understood : CpuMessage → Option DispatchMessage
understood (CpuMessage.end_process pcb) = some (DispatchMessage.end_process pcb)
understood (CpuMessage.input_output pcb device parameter) = some (
    if is_console_device device
    then DispatchMessage.io_console pcb device parameter
    else DispatchMessage.io_default pcb device (atoi parameter))
understood (CpuMessage.page_fault pcb segment page) =
    some (DispatchMessage.page_fault pcb segment page)
understood (CpuMessage.seg_fault pcb) = some (DispatchMessage.seg_fault pcb)
understood (CpuMessage.execute_interruption pcb) = some (DispatchMessage.execute_interruption pcb)
understood CpuMessage.nothing = none

sent_fault :
    (pcb : Pcb) (segment page : ℤ)
    → send_message (CpuMessage.page_fault pcb segment page) []
      ≡ framed_bytes page_fault (fault_stream pcb segment page)
unfolding send_message send_package create_package
sent_fault pcb segment page =
    let p = create_package page_fault in
    let q = add_pcb_to_package p pcb in
    let r = add_int_to_package q segment in
    let a = add_pcb-Adds p pcb (create_package-IsFramed page_fault) in
    let b = add_int-Adds q segment a.framed in
    let all : Adds p (add_int_to_package r page) (fault_stream pcb segment page) =
      Adds-trans p q (add_int_to_package r page) (pcb_bytes pcb)
        (int_bytes segment ++ int_bytes page) a
        (Adds-trans q r (add_int_to_package r page) (int_bytes segment) (int_bytes page) b
          (add_int-Adds r page b.framed)) in
    rw (serialize_framed (add_int_to_package r page) all.framed, all.stream_eq, all.same_code)

-- A message whose process is followed by other bytes.
received_framed :
    (code : OperationCode) (pcb : Pcb) (behind rest : List ℕ)
    → IsPcb pcb
    → length (pcb_bytes pcb ++ behind) < 2 ^ 31
    → receive_dispatch (framed_bytes code (pcb_bytes pcb ++ behind) ++ rest)
      ≡ (read_message (pos (operation_int code)) pcb behind >>= λ m. some (m, rest))
unfolding receive_dispatch
received_framed code pcb behind rest h fits = rw (
  receive_operation_framed code (pcb_bytes pcb ++ behind) rest,
  receive_buffer_framed (pcb_bytes pcb ++ behind) rest fits,
  read_pcb_bytes pcb behind h,
)

-- A message that is the process alone.
received_pcb :
    (code : OperationCode) (pcb : Pcb) (rest : List ℕ)
    → IsPcb pcb
    → length (pcb_bytes pcb) < 2 ^ 31
    → receive_dispatch (framed_bytes code (pcb_bytes pcb) ++ rest)
      ≡ (read_message (pos (operation_int code)) pcb [] >>= λ m. some (m, rest))
received_pcb code pcb rest h fits =
    let whole = append-nil (pcb_bytes pcb) in
    subst
      (λ b.
        receive_dispatch (framed_bytes code b ++ rest)
        ≡ (read_message (pos (operation_int code)) pcb [] >>= λ m. some (m, rest)))
      whole (received_framed code pcb [] rest h (rw whole fits))

-- The device and the parameter of a request.
read_message-io :
    (pcb : Pcb) (device parameter : Text)
    → IsText device
    → IsText parameter
    → IsInt (atoi parameter)
    → read_message
        (pos (operation_int (io_code device true)))
        pcb
        (value_bytes (with_terminator device) ++ parameter_bytes device parameter)
      ≡ some (understood (CpuMessage.input_output pcb device parameter))
unfolding read_message io_code operation_int
read_message-io pcb device parameter hd hp hi =
    elim (Bool-cases (strcmp_eq device (codes "PANTALLA"))) [
      | inl screen ↦ rw (
        screen,
        read_string_value device (value_bytes (with_terminator parameter)) hd,
        read_string_last parameter hp,
      )
      | inr other ↦ elim (Bool-cases (strcmp_eq device (codes "TECLADO"))) [
        | inl keyboard ↦ rw (
          other,
          keyboard,
          read_string_value device (value_bytes (with_terminator parameter)) hd,
          read_string_last parameter hp,
        )
        | inr default ↦
            let last : read_int (int_bytes (atoi parameter)) ≡ some (atoi parameter, []) =
              subst (λ b. read_int b ≡ some (atoi parameter, []))
                (append-nil (int_bytes (atoi parameter))) (read_int_bytes (atoi parameter) [] hi) in
            rw (other, default, read_string_value device (int_bytes (atoi parameter)) hd, last)
      ]
    ]

-- Whatever a process stops with, the kernel reads what the CPU has sent: the same process, and the
-- device, the register, the number, the segment and the page that go with it; the bytes behind the
-- message stay unread. The message is well formed.
pub receive_dispatch-send_message :
    (m : CpuMessage) (rest : List ℕ)
    → IsSendable m
    → receive_dispatch (send_message m [] ++ rest) ≡ some (understood m, rest)
unfolding send_message read_message operation_int
receive_dispatch-send_message (CpuMessage.end_process pcb) rest (h, fits) =
    rw (sent_pcb [] pcb end_process) (received_pcb end_process pcb rest h fits)
receive_dispatch-send_message (CpuMessage.seg_fault pcb) rest (h, fits) =
    rw (sent_pcb [] pcb seg_fault) (received_pcb seg_fault pcb rest h fits)
receive_dispatch-send_message (CpuMessage.execute_interruption pcb) rest (h, fits) =
    rw (sent_pcb [] pcb execute_interruption) (received_pcb execute_interruption pcb rest h fits)
receive_dispatch-send_message (CpuMessage.page_fault pcb segment page) rest (h, hs, hp, fits) =
    let last : read_int (int_bytes page) ≡ some (page, []) =
      subst (λ b. read_int b ≡ some (page, [])) (append-nil (int_bytes page))
        (read_int_bytes page [] hp) in
    rw (sent_fault pcb segment page) (
      received_framed page_fault pcb (int_bytes segment ++ int_bytes page) rest h fits
      ∙ rw (read_int_bytes segment (int_bytes page) hs, last) refl)
receive_dispatch-send_message (CpuMessage.input_output pcb device parameter) rest
      (h, hd, hp, hi, fits) =
    rw (sent_io pcb device parameter true) (
      received_framed (io_code device true) pcb
        (value_bytes (with_terminator device) ++ parameter_bytes device parameter) rest h fits
      ∙ ap (λ o. o >>= λ m. some (m, rest)) (read_message-io pcb device parameter hd hp hi))
receive_dispatch-send_message CpuMessage.nothing rest h = absurd (h)
