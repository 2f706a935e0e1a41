-- ===== src/Kernel/Reception/Programs.antt =====
-- What a console sends is what the kernel's thread for it acts on.
use geck.Prelude.{
  ℕ, ◌^◌, ◌<◌, ◌≡◌, subst, ℤ, pos, List, [], ◌++◌, append-nil, All, Bool, some, length,
}
use geck.Shared.Strings.{Text}
use geck.Shared.{init_process, io_screen_response, io_keyboard_response, operation_int, Pcb}
use geck.Shared.Wire.{
  create_package, add_string_array_to_package, send_package, send_pcb_package, read_string_array,
}
use geck.Shared.Wire.Bytes.{
  int_bytes, string_bytes, pcb_bytes, Adds-trans, add_string_array-Adds, create_package-IsFramed,
}
use geck.Shared.Wire.PcbRoundTrip.{IsPcb, IsText, read_string_array_bytes}
use geck.Shared.Wire.Channel.{
  framed_bytes, serialize_framed, receive_operation_framed, receive_buffer_framed, receive-send_pcb,
}
use geck.Console.{send_process_package}
use geck.Kernel.{KernelConfig, Kernel}
use geck.Kernel.Ready
use geck.Kernel.Ready.{io_response}
use geck.Kernel.Reception.{received, pcb_init, receive_console}

-- An array of strings in a package.
abbrev pub array_bytes : List Text → List ℕ
array_bytes ts = int_bytes (pos (length ts)) ++ string_bytes ts

pub sent_process :
    (channel : List ℕ) (instructions segments : List Text)
    → send_process_package channel instructions segments
      ≡ channel ++ framed_bytes init_process (array_bytes instructions ++ array_bytes segments)
unfolding send_process_package send_package create_package
sent_process channel instructions segments =
    let p = create_package init_process in
    let q = add_string_array_to_package p instructions in
    let first = add_string_array-Adds p instructions (create_package-IsFramed init_process) in
    let a =
      Adds-trans p q (add_string_array_to_package q segments) (array_bytes instructions)
        (array_bytes segments) first (add_string_array-Adds q segments first.framed) in
    rw
      (serialize_framed (add_string_array_to_package q segments) a.framed, a.stream_eq, a.same_code)

module _ (same : Text → Text → Bool) (c : KernelConfig) (client_socket : ℤ) where
  -- The program that a console sends becomes a process: the kernel's thread for the console reads
  -- the lines and the segments as they were sent, and acts as INIT_PROCESS does on them. The texts
  -- are C strings, and their number and the whole package fit an `int`.
  pub receive_console-send_process :
      (instructions segments : List Text) (rest : List ℕ) (k : Kernel)
      → All IsText instructions
      → All IsText segments
      → length instructions < 2 ^ 31
      → length segments < 2 ^ 31
      → length (array_bytes instructions ++ array_bytes segments) < 2 ^ 31
      → receive_console same c client_socket
          (send_process_package [] instructions segments ++ rest)
          k
        ≡ received (Ready.init_process same c client_socket instructions segments k) rest
  unfolding receive_console pcb_init operation_int
  receive_console-send_process instructions segments rest k hi hs fi fs fits =
      let last =
        subst (λ b. read_string_array b ≡ some (segments, [])) (append-nil (array_bytes segments))
          (read_string_array_bytes segments [] hs fs) in
      rw (
        sent_process [] instructions segments,
        receive_operation_framed init_process (array_bytes instructions ++ array_bytes segments)
            rest,
        receive_buffer_framed (array_bytes instructions ++ array_bytes segments) rest fits,
        read_string_array_bytes instructions (array_bytes segments) hi fi,
        last,
      )

  -- The answer of a console, to a request for the screen or the keyboard, makes its process ready.
  receive_console-send_pcb :
      (pcb : Pcb) (rest : List ℕ) (k : Kernel)
      → IsPcb pcb
      → length (pcb_bytes pcb) < 2 ^ 31
      → (receive_console same c client_socket (send_pcb_package [] pcb io_screen_response ++ rest) k
          ≡ received (io_response same c pcb k) rest)
        × (receive_console same c client_socket
              (send_pcb_package [] pcb io_keyboard_response ++ rest)
              k
            ≡ received (io_response same c pcb k) rest)
  unfolding receive_console operation_int
  receive_console-send_pcb pcb rest k h fits =
      let a = receive-send_pcb pcb io_screen_response rest h fits in
      let b = receive-send_pcb pcb io_keyboard_response rest h fits in
      (rw (a.0, a.1), rw (b.0, b.1))
