-- ===== src/Console/Answers.antt =====
-- What a console answers to one request of the kernel.
use geck.Prelude.{
  ℕ, ◌^◌, ◌<◌, ◌≡◌, ◌⊎◌, inl, inr, refl, sym, ap, ◌∙◌, subst, ℤ, signed, word, List, [], ◌∷◌, ◌++◌,
  Bool, true, false, some, length, arith, if◌then◌else◌,
}
use geck.Shared.Strings.{Text, codes, strcmp_eq, strcmp_eq_iff, atoi}
use geck.Shared.{
  OperationCode, io_screen, io_keyboard, io_screen_response, io_keyboard_response, operation_int,
  Pcb,
}
use geck.Shared.Wire.{send_pcb_package, send_pcb_io_package, with_terminator, io_code}
use geck.Shared.Wire.Bytes.{value_bytes}
use geck.Shared.Wire.PcbRoundTrip.{IsPcb, IsText, read_pcb_bytes, read_string_value}
use geck.Shared.Wire.Channel.{
  io_stream, sent_io, sent_pcb, read_string_last, receive_operation_framed, receive_buffer_framed,
}
use geck.Cpu.RegisterFile.{find_value_of_register}
use geck.Console.{
  Line, Console, register_at, show_on_screen_pcb_register, store_typed, scan_value, answer_screen,
  answer_keyboard, goes, turn,
}

-- A request that the kernel sends to a console.
abbrev pub asked : Text → Pcb → Text → List ℕ
asked device pcb name = send_pcb_io_package [] pcb device name true

-- The fields, the name and the whole request fit their C types.
pub record IsRequest (device : Text) (pcb : Pcb) (name : Text) : Type 0 where
  pub pcb_in : IsPcb pcb
  pub name_in : IsText name
  pub fits : length (io_stream pcb device name) < 2 ^ 31

screen-IsText : IsText (codes "PANTALLA")
screen-IsText = record {
  no_nul = (
    omega arith,
    (
      omega arith,
      (omega arith, (omega arith, (omega arith, (omega arith, (omega arith, (omega arith, tt)))))),
    ),
  );
  fits = omega arith;
}

keyboard-IsText : IsText (codes "TECLADO")
keyboard-IsText = record {
  no_nul = (
    omega arith,
    (omega arith, (omega arith, (omega arith, (omega arith, (omega arith, (omega arith, tt)))))),
  );
  fits = omega arith;
}

pub sent_behind :
    (channel : List ℕ) (pcb : Pcb) (code : OperationCode)
    → send_pcb_package channel pcb code ≡ channel ++ send_pcb_package [] pcb code
sent_behind channel pcb code =
    sent_pcb channel pcb code ∙ ap (λ b. channel ++ b) (sym (sent_pcb [] pcb code))

module _ (same : Text → Text → Bool) where
  -- A request for the screen: the lines are printed and the process comes back as it was.
  pub turn-screen :
      (s : Console) (pcb : Pcb) (name : Text) (rest : List ℕ) (lines : List Line)
      → IsRequest (codes "PANTALLA") pcb name
      → s.incoming ≡ asked (codes "PANTALLA") pcb name ++ rest
      → show_on_screen_pcb_register same pcb name ≡ some lines
      → turn same s
        ≡ goes (record s {
          incoming = rest;
          printed = s.printed ++ lines;
          outgoing = send_pcb_package s.outgoing pcb io_screen_response;
        })
  unfolding turn answer_screen operation_int strcmp_eq io_code
  turn-screen s pcb name rest lines h e shown =
      let name_bytes = value_bytes (with_terminator name) in
      rw (
        e,
        sent_io pcb (codes "PANTALLA") name true,
        receive_operation_framed io_screen (io_stream pcb (codes "PANTALLA") name) rest,
        receive_buffer_framed (io_stream pcb (codes "PANTALLA") name) rest h.fits,
        read_pcb_bytes pcb (value_bytes (with_terminator (codes "PANTALLA")) ++ name_bytes)
            h.pcb_in,
        read_string_value (codes "PANTALLA") name_bytes screen-IsText,
        read_string_last name h.name_in,
        shown,
      )

  -- A request for the keyboard: the next number goes to the register of the name.
  pub turn-keyboard :
      (s : Console) (pcb : Pcb) (name : Text) (rest : List ℕ) (value : ℤ) (numbers : List ℤ)
      → IsRequest (codes "TECLADO") pcb name
      → s.incoming ≡ asked (codes "TECLADO") pcb name ++ rest
      → s.keyboard ≡ value ∷ numbers
      → turn same s
        ≡ goes (record s {
          incoming = rest;
          keyboard = numbers;
          value = some value;
          outgoing = send_pcb_package s.outgoing (store_typed pcb name value) io_keyboard_response;
        })
  unfolding turn answer_keyboard scan_value operation_int strcmp_eq io_code
  turn-keyboard s pcb name rest value numbers h e typed =
      let name_bytes = value_bytes (with_terminator name) in
      rw (
        e,
        sent_io pcb (codes "TECLADO") name true,
        receive_operation_framed io_keyboard (io_stream pcb (codes "TECLADO") name) rest,
        receive_buffer_framed (io_stream pcb (codes "TECLADO") name) rest h.fits,
        read_pcb_bytes pcb (value_bytes (with_terminator (codes "TECLADO")) ++ name_bytes) h.pcb_in,
        read_string_value (codes "TECLADO") name_bytes keyboard-IsText,
        read_string_last name h.name_in,
        typed,
      )

-- The name of one of the four registers.
abbrev pub IsRegisterName : Text → Type 0
IsRegisterName name =
    (name ≡ codes "AX") ⊎ (name ≡ codes "BX") ⊎ (name ≡ codes "CX") ⊎ (name ≡ codes "DX")

module _ (pcb : Pcb) (value : ℤ) where
  -- The CPU's reading of a register after a number has been typed for another.
  abbrev Reads : Text → Text → Type 0
  Reads name other = find_value_of_register other (store_typed pcb name value).cpu_registers ≡ (
      if strcmp_eq other name then word value else find_value_of_register other pcb.cpu_registers)

  -- No text is the name of two registers.
  one_name :
      (other a b : Text)
      → strcmp_eq a b ≡ false
      → strcmp_eq other a ≡ true
      → strcmp_eq other b ≡ false
  one_name other a b apart is =
      subst (λ t. strcmp_eq t b ≡ false) (sym ((strcmp_eq_iff other a).0 is)) apart

  -- A number that is typed for a register is what the CPU then reads there, as a word of 32 bits;
  -- every other register reads as before.
  pub find_value-store_typed : (name other : Text) → IsRegisterName name → Reads name other
  unfolding store_typed find_value_of_register strcmp_eq
  find_value-store_typed name other (inl e) =
      rw e (ground (arith, one_name other (codes "AX") (codes "BX") refl))
  find_value-store_typed name other (inr (inl e)) =
      rw e (ground (arith, one_name other (codes "AX") (codes "BX") refl))
  find_value-store_typed name other (inr (inr (inl e))) = rw e (
      ground (
        arith,
        one_name other (codes "AX") (codes "CX") refl,
        one_name other (codes "BX") (codes "CX") refl,
      ))
  find_value-store_typed name other (inr (inr (inr e))) = rw e (
      ground (
        arith,
        one_name other (codes "AX") (codes "DX") refl,
        one_name other (codes "BX") (codes "DX") refl,
        one_name other (codes "CX") (codes "DX") refl,
      ))

-- The same either way.
either {ℓ} : {A : Type ℓ} (b : Bool) (x y : A) → y ≡ x → (if b then x else y) ≡ x
either true x y e = refl
either false x y e = e

-- The screen shows AX whatever register is named: the index is `atoi` of the name, which is 0. The
-- comparison is assumed to find a text equal to itself, and the name is that of a register.
pub show_on_screen-ax :
    (same : Text → Text → Bool) (pcb : Pcb) (name : Text)
    → ((t : Text) → same t t ≡ true)
    → IsRegisterName name
    → show_on_screen_pcb_register same pcb name
      ≡ some (record { name = name; value = signed pcb.cpu_registers.ax } ∷ [])
unfolding show_on_screen_pcb_register register_at atoi
show_on_screen-ax same pcb name h (inl e) = rw (e, h (codes "AX")) refl
show_on_screen-ax same pcb name h (inr (inl e)) =
    rw e (either (same (codes "BX") (codes "AX")) _ _ (rw (h (codes "BX")) refl))
show_on_screen-ax same pcb name h (inr (inr (inl e))) = rw e (
    either (same (codes "CX") (codes "AX")) _ _
      (either (same (codes "CX") (codes "BX")) _ _ (rw (h (codes "CX")) refl)))
show_on_screen-ax same pcb name h (inr (inr (inr e))) = rw e (
    either (same (codes "DX") (codes "AX")) _ _ (
      either (same (codes "DX") (codes "BX")) _ _
        (either (same (codes "DX") (codes "CX")) _ _ (rw (h (codes "DX")) refl))))
