-- ===== src/Tests/Shared.antt =====
-- The theorems on the packages at a small process.
use geck.Prelude.{◌≡◌, pos, [], ◌∷◌, ◌++◌, some, arith}
use geck.Shared.Strings.{codes}
use geck.Shared.{Pcb, execute_pcb, operation_int, status_int}
use geck.Shared.Wire.{send_pcb_package, receive_operation, receive_pcb}
use geck.Shared.Wire.Bytes.{pcb_bytes}
use geck.Shared.Wire.PcbRoundTrip.{IsPcb, IsText}
use geck.Shared.Wire.Channel.{receive-send_pcb}
use geck.Tests.Data.{process}

abbrev pub block : Pcb
block = process (codes "EXIT" ∷ [])

pub exit-IsText : IsText (codes "EXIT")
exit-IsText = record {
  no_nul = (omega arith, (omega arith, (omega arith, (omega arith, tt))));
  fits = omega arith;
}

pub block-IsPcb : IsPcb block
block-IsPcb = record {
  pid_in = omega arith;
  size_in = omega arith;
  counter_in = omega arith;
  socket_in = omega arith;
  ax_in = omega arith;
  bx_in = omega arith;
  cx_in = omega arith;
  dx_in = omega arith;
  status_in = tt;
  texts = (exit-IsText, tt);
  texts_fit = omega arith;
  segments =
      (record { number_in = omega arith; size_in = omega arith; index_in = omega arith }, tt);
  segments_fit = omega arith;
}

receive_pcb_example :
    let (operation, payload) =
      receive_operation (send_pcb_package [] block execute_pcb ++ 1 ∷ []) in
    (operation ≡ pos (operation_int execute_pcb)) × (receive_pcb payload ≡ some (block, 1 ∷ []))
unfolding pcb_bytes status_int
receive_pcb_example = receive-send_pcb block execute_pcb (1 ∷ []) block-IsPcb (omega arith)

pub ax-IsText : IsText (codes "AX")
ax-IsText = record { no_nul = (omega arith, (omega arith, tt)); fits = omega arith }
