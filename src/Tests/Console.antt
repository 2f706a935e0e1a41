-- ===== src/Tests/Console.antt =====
-- The theorems on a console, and on what the kernel has of it, at small cases.
use geck.Prelude.{
  zero, suc, ◌≡◌, inl, inr, refl, sym, ◌∙◌, ◌≢◌, ℤ, pos, negsuc, word, signed, List, [], ◌∷◌, ◌++◌,
  true, none, some, if◌then◌else◌, arith,
}
use geck.Shared.Strings.{Text, codes, strcmp_eq, strcmp_eq_iff, atoi}
use geck.Shared.{end_console, status_int}
use geck.Shared.Wire.Bytes.{pcb_bytes}
use geck.Console.{
  Console, ended, main_loop, send_process_package, store_typed, show_on_screen_pcb_register,
}
use geck.Console.Answers.{IsRequest, IsRegisterName, find_value-store_typed, show_on_screen-ax}
use geck.Console.Session.{
  Exchange, screen, keyboard, requests, responses, typed, shown, ending, main_loop-requests,
}
use geck.Cpu.RegisterFile.{find_value_of_register}
use geck.Kernel.{Kernel, init_kernel}
use geck.Kernel.Ready
use geck.Kernel.Reception.{received, receive_console}
use geck.Kernel.Reception.Programs.{receive_console-send_process}
use geck.Kernel.ReadyLog.{
  loggear_cola_ready, loggear_cola_ready-bracketed, ready_fifo, ready_rr, ready, bracketed,
}
use geck.Kernel.Devices.{init_device_config_dictionary}
use geck.Kernel.Devices.Order.{HasQueue}
use geck.Kernel.Devices.Setup.{IsDistinct, init_kernel-HasQueue}
use geck.Tests.Shared.{block, block-IsPcb, ax-IsText, exit-IsText}
use geck.Tests.Kernel.{kernel_config}

strcmp_refl : (t : Text) → strcmp_eq t t ≡ true
strcmp_refl t = (strcmp_eq_iff t t).1 refl

abbrev session : List Exchange
session = screen block (codes "AX") ∷ keyboard block (codes "AX") (negsuc 4) ∷ []

abbrev console : Console
console = record {
  incoming = requests session ++ (ending end_console ++ []);
  outgoing = [];
  printed = [];
  keyboard = typed session ++ [];
  value = none;
}

ax-IsRegisterName : IsRegisterName (codes "AX")
ax-IsRegisterName = inl refl

screen-IsRequest : IsRequest (codes "PANTALLA") block (codes "AX")
unfolding pcb_bytes status_int strcmp_eq
screen-IsRequest = record { pcb_in = block-IsPcb; name_in = ax-IsText; fits = omega arith }

keyboard-IsRequest : IsRequest (codes "TECLADO") block (codes "AX")
unfolding pcb_bytes status_int strcmp_eq
keyboard-IsRequest = record { pcb_in = block-IsPcb; name_in = ax-IsText; fits = omega arith }

main_loop_example :
    (last : Console) × (main_loop strcmp_eq 3 console ≡ ended last)
    × (last.outgoing ≡ [] ++ responses session)
    × (last.printed ≡ [] ++ shown session)
    × (last.keyboard ≡ [])
main_loop_example =
    main_loop-requests strcmp_eq strcmp_refl session end_console [] [] console
      ((screen-IsRequest, ax-IsRegisterName), (keyboard-IsRequest, tt)) (inl refl) refl refl

typed_example :
    find_value_of_register (codes "BX") (store_typed block (codes "AX") (negsuc 4)).cpu_registers
    ≡ (if strcmp_eq (codes "BX") (codes "AX")
        then word (negsuc 4)
        else find_value_of_register (codes "BX") block.cpu_registers)
typed_example = find_value-store_typed block (negsuc 4) (codes "AX") (codes "BX") (inl refl)

show_example :
    show_on_screen_pcb_register strcmp_eq block (codes "CX")
    ≡ some (record { name = codes "CX"; value = signed 7 } ∷ [])
show_example = show_on_screen-ax strcmp_eq block (codes "CX") strcmp_refl (inr (inr (inl refl)))

program_example :
    receive_console strcmp_eq
      (kernel_config (codes "FIFO"))
      (pos 5)
      (send_process_package [] (codes "EXIT" ∷ []) (codes "AX" ∷ []) ++ 1 ∷ [])
      (init_kernel strcmp_eq (kernel_config (codes "FIFO")) [])
    ≡ received
        (Ready.init_process strcmp_eq
          (kernel_config (codes "FIFO"))
          (pos 5)
          (codes "EXIT" ∷ [])
          (codes "AX" ∷ [])
          (init_kernel strcmp_eq (kernel_config (codes "FIFO")) []))
        (1 ∷ [])
program_example =
    receive_console-send_process strcmp_eq (kernel_config (codes "FIFO")) (pos 5)
      (codes "EXIT" ∷ []) (codes "AX" ∷ []) (1 ∷ [])
      (init_kernel strcmp_eq (kernel_config (codes "FIFO")) []) (exit-IsText, tt) (ax-IsText, tt)
      (omega arith) (omega arith) (omega arith)

abbrev itoa : ℤ → Text
itoa pid = codes "1"

abbrev waiting : Kernel
waiting = record (init_kernel strcmp_eq (kernel_config (codes "FIFO")) []) {
  list_ready = block ∷ block ∷ [];
}

log_example : loggear_cola_ready itoa strcmp_eq (codes "FIFO") waiting ≡ (
    if strcmp_eq (codes "FIFO") (codes "FEEDBACK")
    then ready_fifo (bracketed itoa waiting.list_ready_fifo)
      ∷ ready_rr (bracketed itoa waiting.list_ready_rr)
      ∷ []
    else ready (bracketed itoa waiting.list_ready) ∷ [])
log_example = loggear_cola_ready-bracketed itoa strcmp_eq (codes "FIFO") waiting

abbrev devices : List Text
devices = codes "DISCO" ∷ codes "MOUSE" ∷ []

disk_apart : codes "DISCO" ≢ codes "MOUSE"
unfolding strcmp_eq
disk_apart e =
    let t : strcmp_eq (codes "DISCO") (codes "MOUSE") ≡ true = (strcmp_eq_iff _ _).1 e in cc (t)

some_same : {a b : Text} → some a ≡ some b → a ≡ b
some_same e = cc

devices-IsDistinct : IsDistinct devices
devices-IsDistinct zero zero a b h h' e = refl
devices-IsDistinct (suc zero) (suc zero) a b h h' e = refl
devices-IsDistinct zero (suc zero) a b h h' e =
    absurd (disk_apart (some_same h ∙ e ∙ sym (some_same h')))
devices-IsDistinct (suc zero) zero a b h h' e =
    absurd (disk_apart (some_same h' ∙ sym e ∙ sym (some_same h)))
devices-IsDistinct (suc (suc i)) j a b h h' e = absurd (cc)
devices-IsDistinct zero (suc (suc j)) a b h h' e = absurd (cc)
devices-IsDistinct (suc zero) (suc (suc j)) a b h h' e = absurd (cc)

setup_example :
    (h : HasQueue
      (init_kernel strcmp_eq
        (kernel_config (codes "FIFO"))
        (init_device_config_dictionary devices (codes "5" ∷ codes "9" ∷ []) []))
      (codes "MOUSE")
      [])
    × (h.device.device_locked_time ≡ atoi (codes "9"))
setup_example =
    init_kernel-HasQueue strcmp_eq (kernel_config (codes "FIFO")) devices
      (codes "5" ∷ codes "9" ∷ []) 1 (codes "MOUSE") (codes "9") devices-IsDistinct refl refl
