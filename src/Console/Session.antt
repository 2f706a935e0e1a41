-- ===== src/Console/Session.antt =====
-- A whole session of a console: the requests of the kernel, one after another, and its order to end.
use geck.Prelude.{
  ℕ, suc, ◌≡◌, ◌⊎◌, inl, inr, refl, sym, ap, ◌∙◌, ℤ, pos, signed, List, [], ◌∷◌, ◌++◌, append_assoc,
  append-nil, All, Bool, true, some, length,
}
use geck.Shared.Strings.{Text, codes}
use geck.Shared.{
  OperationCode, io_screen_response, io_keyboard_response, end_console, end_console_seg_fault,
  operation_int, Pcb,
}
use geck.Shared.Wire.{create_package, send_package, send_pcb_package}
use geck.Shared.Wire.Bytes.{int_bytes, create_package-IsFramed}
use geck.Shared.Wire.Channel.{framed_bytes, serialize_framed, receive_operation_framed}
use geck.Console.{Line, Console, store_typed, ends, turn, ended, main_loop}
use geck.Console.Answers.{
  asked, IsRequest, IsRegisterName, sent_behind, turn-screen, turn-keyboard, show_on_screen-ax,
}

-- A request, with the number that is typed for it.
pub data Exchange : Type 0 where
  screen : Pcb → Text → Exchange
  keyboard : Pcb → Text → ℤ → Exchange

abbrev pub IsExchange : Exchange → Type 0
IsExchange (screen pcb name) = IsRequest (codes "PANTALLA") pcb name × IsRegisterName name
IsExchange (keyboard pcb name value) = IsRequest (codes "TECLADO") pcb name

-- What the kernel sends for the requests.
abbrev pub requests : List Exchange → List ℕ
requests [] = []
requests (screen pcb name ∷ es) = asked (codes "PANTALLA") pcb name ++ requests es
requests (keyboard pcb name value ∷ es) = asked (codes "TECLADO") pcb name ++ requests es

-- What it should get back: each process, with the number that was typed in its register.
abbrev pub responses : List Exchange → List ℕ
responses [] = []
responses (screen pcb name ∷ es) = send_pcb_package [] pcb io_screen_response ++ responses es
responses (keyboard pcb name value ∷ es) =
    send_pcb_package [] (store_typed pcb name value) io_keyboard_response ++ responses es

abbrev pub typed : List Exchange → List ℤ
typed [] = []
typed (screen pcb name ∷ es) = typed es
typed (keyboard pcb name value ∷ es) = value ∷ typed es

-- The lines of the screen; their value is that of AX.
abbrev pub shown : List Exchange → List Line
shown [] = []
shown (screen pcb name ∷ es) =
    record { name = name; value = signed pcb.cpu_registers.ax } ∷ shown es
shown (keyboard pcb name value ∷ es) = shown es

abbrev pub IsEnding : OperationCode → Type 0
IsEnding code = (code ≡ end_console) ⊎ (code ≡ end_console_seg_fault)

-- The order to end.
abbrev pub ending : OperationCode → List ℕ
ending code = send_package (create_package code) []

sent_ending : (code : OperationCode) → ending code ≡ framed_bytes code []
unfolding send_package create_package
sent_ending code = serialize_framed (create_package code) (create_package-IsFramed code)

module _ (same : Text → Text → Bool) where
  turn-ending :
      (s : Console) (code : OperationCode) (rest : List ℕ)
      → IsEnding code
      → s.incoming ≡ ending code ++ rest
      → (left : List ℕ) × (turn same s ≡ ends (record s { incoming = left }))
  unfolding turn operation_int
  turn-ending s code rest (inl is) e = (
    int_bytes (pos 0) ++ rest,
    rw (e, sent_ending code, receive_operation_framed code [] rest, is),
  )
  turn-ending s code rest (inr is) e = (
    int_bytes (pos 0) ++ rest,
    rw (e, sent_ending code, receive_operation_framed code [] rest, is),
  )

  -- How the session ends.
  record Answered (es : List Exchange) (numbers : List ℤ) (s : Console) : Type 0 where
    last : Console
    result : main_loop same (suc (length es)) s ≡ ended last
    outgoing : last.outgoing ≡ s.outgoing ++ responses es
    printed : last.printed ≡ s.printed ++ shown es
    keyboard : last.keyboard ≡ numbers

  answered :
      ((t : Text) → same t t ≡ true)
      → (es : List Exchange) (code : OperationCode) (rest : List ℕ) (numbers : List ℤ) (s : Console)
      → All IsExchange es
      → IsEnding code
      → s.incoming ≡ requests es ++ (ending code ++ rest)
      → s.keyboard ≡ typed es ++ numbers
      → Answered es numbers s
  unfolding main_loop
  answered h [] code rest numbers s w stop e k =
      let (left, r) = turn-ending s code rest stop e in
      record {
        last = record s { incoming = left };
        result = rw r;
        outgoing = sym (append-nil s.outgoing);
        printed = sym (append-nil s.printed);
        keyboard = k;
      }
  answered h (screen pcb name ∷ es) code rest numbers s w stop e k =
      let after = requests es ++ (ending code ++ rest) in
      let line : Line = record { name = name; value = signed pcb.cpu_registers.ax } in
      let t : Console = record s {
        incoming = after;
        printed = s.printed ++ (line ∷ []);
        outgoing = send_pcb_package s.outgoing pcb io_screen_response;
      } in
      let r =
        turn-screen same s pcb name after (line ∷ []) w.0.0
          (e ∙ append_assoc (asked (codes "PANTALLA") pcb name) (requests es) (ending code ++ rest))
          (show_on_screen-ax same pcb name h w.0.1) in
      let a = answered h es code rest numbers t w.1 stop refl k in
      record {
        last = a.last;
        result = rw r a.result;
        outgoing =
            a.outgoing
            ∙ ap (λ o. o ++ responses es) (sent_behind s.outgoing pcb io_screen_response)
            ∙ append_assoc s.outgoing _ (responses es);
        printed = a.printed ∙ append_assoc s.printed (line ∷ []) (shown es);
        keyboard = a.keyboard;
      }
  answered h (keyboard pcb name value ∷ es) code rest numbers s w stop e k =
      let after = requests es ++ (ending code ++ rest) in
      let t : Console = record s {
        incoming = after;
        keyboard = typed es ++ numbers;
        value = some value;
        outgoing = send_pcb_package s.outgoing (store_typed pcb name value) io_keyboard_response;
      } in
      let r =
        turn-keyboard same s pcb name after value (typed es ++ numbers) w.0
          (e ∙ append_assoc (asked (codes "TECLADO") pcb name) (requests es) (ending code ++ rest))
          k in
      let a = answered h es code rest numbers t w.1 stop refl refl in
      record {
        last = a.last;
        result = rw r a.result;
        outgoing =
            a.outgoing
            ∙ ap (λ o. o ++ responses es)
                (sent_behind s.outgoing (store_typed pcb name value) io_keyboard_response)
            ∙ append_assoc s.outgoing _ (responses es);
        printed = a.printed;
        keyboard = a.keyboard;
      }

  -- A console ends, and has answered every request in order. For requests that are well formed, as many
  -- numbers as the keyboard's requests take, and an order to end behind them, the loop ends after
  -- one round for each: it has sent each process back, with the number that was typed in its
  -- register, and has printed a line for each request of the screen. The comparison is assumed to
  -- find a text equal to itself.
  pub main_loop-requests :
      ((t : Text) → same t t ≡ true)
      → (es : List Exchange) (code : OperationCode) (rest : List ℕ) (numbers : List ℤ) (s : Console)
      → All IsExchange es
      → IsEnding code
      → s.incoming ≡ requests es ++ (ending code ++ rest)
      → s.keyboard ≡ typed es ++ numbers
      → (last : Console) × (main_loop same (suc (length es)) s ≡ ended last)
        × (last.outgoing ≡ s.outgoing ++ responses es)
        × (last.printed ≡ s.printed ++ shown es)
        × (last.keyboard ≡ numbers)
  main_loop-requests h es code rest numbers s w stop e k =
      let a = answered h es code rest numbers s w stop e k in
      (a.last, a.result, a.outgoing, a.printed, a.keyboard)
