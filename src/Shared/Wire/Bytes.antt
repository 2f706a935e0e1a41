-- ===== src/Shared/Wire/Bytes.antt =====
-- What the writers of a package append, as plain lists of bytes.
use geck.Prelude.{
  ℕ, ◌≡◌, refl, sym, ap, ◌∙◌, ℤ, pos, word, List, [], ◌∷◌, ◌++◌, append_assoc, append-nil, arith,
  length, length-append, take, Bool, Bool-cases, inl, inr, if◌then◌else◌,
}
use geck.Shared.Strings.{Text, atoi}
use geck.Shared.{OperationCode, Pcb, Segment, Registers, status_int}
use geck.Shared.Wire.{
  Package, word_bytes, create_package, put_bytes, add_int_to_package, add_uint32_to_package,
  add_value_to_package, with_terminator, add_strings, add_string_array_to_package,
  add_registers_to_package, add_segments, add_segment_table_to_package, add_pcb_to_package,
  is_console_device, io_code, io_package,
}

-- `size` is the length of the stream.
abbrev pub IsFramed : Package → Type 0
IsFramed p = p.size ≡ length p.stream

-- `q` is `p` with the bytes appended.
pub record Adds (p : Package) (q : Package) (bytes : List ℕ) : Type 0 where
  pub stream_eq : q.stream ≡ p.stream ++ bytes
  pub framed : IsFramed q
  pub same_code : q.op_code ≡ p.op_code

pub Adds-trans : (p q r : Package) (b c : List ℕ) → Adds p q b → Adds q r c → Adds p r (b ++ c)
Adds-trans p q r b c f g = record {
  stream_eq = g.stream_eq ∙ ap (λ s. s ++ c) f.stream_eq ∙ append_assoc p.stream b c;
  framed = g.framed;
  same_code = g.same_code ∙ f.same_code;
}

take_all {ℓ} : {A : Type ℓ} (xs : List A) → take (length xs) xs ≡ xs
take_all [] = refl
take_all (x ∷ xs) = ap (◌∷◌ x) (take_all xs)

pub take_framed : (p : Package) → IsFramed p → take p.size p.stream ≡ p.stream
take_framed p h = rw h (take_all p.stream)

pub put_bytes-Adds : (p : Package) (b : List ℕ) → IsFramed p → Adds p (put_bytes p b) b
put_bytes-Adds p b h = record {
  stream_eq = ap (λ s. s ++ b) (take_framed p h);
  framed = rw (take_framed p h, length-append p.stream b) (omega arith);
  same_code = refl;
}

pub create_package-IsFramed : (c : OperationCode) → IsFramed (create_package c)
unfolding create_package
create_package-IsFramed c = refl

abbrev pub int_bytes : ℤ → List ℕ
int_bytes x = word_bytes (word x)

abbrev pub value_bytes : List ℕ → List ℕ
value_bytes v = int_bytes (pos (length v)) ++ v

abbrev pub string_bytes : List Text → List ℕ
string_bytes [] = []
string_bytes (t ∷ rest) = value_bytes (with_terminator t) ++ string_bytes rest

abbrev pub segment_bytes : List Segment → List ℕ
segment_bytes [] = []
segment_bytes (s ∷ rest) =
    (int_bytes s.number ++ (int_bytes s.size ++ int_bytes s.index_page)) ++ segment_bytes rest

abbrev pub register_bytes : Registers → List ℕ
register_bytes r = word_bytes r.ax ++ (word_bytes r.bx ++ (word_bytes r.cx ++ word_bytes r.dx))

unfoldable pub pcb_bytes : Pcb → List ℕ
pcb_bytes pcb =
    int_bytes pcb.process_id
    ++ (int_bytes (status_int pcb.status)
        ++ (int_bytes pcb.size
            ++ ((int_bytes (pos (length pcb.instructions)) ++ string_bytes pcb.instructions)
                ++ (register_bytes pcb.cpu_registers
                    ++ (int_bytes pcb.program_counter
                        ++ (int_bytes pcb.client_socket
                            ++ (int_bytes (pos (length pcb.segment_table))
                                ++ segment_bytes pcb.segment_table)))))))

pub add_int-Adds :
    (p : Package) (x : ℤ) → IsFramed p → Adds p (add_int_to_package p x) (int_bytes x)
unfolding add_int_to_package
add_int-Adds p x h = put_bytes-Adds p _ h

add_uint32-Adds :
    (p : Package) (x : ℕ) → IsFramed p → Adds p (add_uint32_to_package p x) (word_bytes x)
unfolding add_uint32_to_package
add_uint32-Adds p x h = put_bytes-Adds p _ h

pub add_value-Adds :
    (p : Package) (v : List ℕ) → IsFramed p → Adds p (add_value_to_package p v) (value_bytes v)
unfolding add_value_to_package
add_value-Adds p v h = put_bytes-Adds p _ h

-- The end of a chain of appended bytes.
Adds-nil : (p : Package) → IsFramed p → Adds p p []
Adds-nil p h = record { stream_eq = sym (append-nil p.stream); framed = h; same_code = refl }

add_strings-Adds :
    (ts : List Text) (p : Package) → IsFramed p → Adds p (add_strings p ts) (string_bytes ts)
unfolding add_strings
add_strings-Adds [] p h = Adds-nil p h
add_strings-Adds (t ∷ ts) p h =
    let first = add_value-Adds p (with_terminator t) h in
    Adds-trans p _ _ _ (string_bytes ts) first (add_strings-Adds ts _ first.framed)

pub add_string_array-Adds :
    (p : Package) (ts : List Text)
    → IsFramed p
    → Adds p (add_string_array_to_package p ts) (int_bytes (pos (length ts)) ++ string_bytes ts)
unfolding add_string_array_to_package
add_string_array-Adds p ts h =
    let first = add_int-Adds p (pos (length ts)) h in
    Adds-trans p _ _ _ (string_bytes ts) first (add_strings-Adds ts _ first.framed)

add_registers-Adds :
    (p : Package) (r : Registers)
    → IsFramed p
    → Adds p (add_registers_to_package p r) (register_bytes r)
unfolding add_registers_to_package
add_registers-Adds p r h =
    let a = add_uint32-Adds p r.ax h in
    let b = add_uint32-Adds _ r.bx a.framed in
    let c = add_uint32-Adds _ r.cx b.framed in
    let d = add_uint32-Adds _ r.dx c.framed in
    Adds-trans p _ _ _ _ a (Adds-trans _ _ _ _ _ b (Adds-trans _ _ _ _ _ c d))

add_segments-Adds :
    (ss : List Segment) (p : Package) → IsFramed p → Adds p (add_segments p ss) (segment_bytes ss)
unfolding add_segments
add_segments-Adds [] p h = Adds-nil p h
add_segments-Adds (s ∷ ss) p h =
    let a = add_int-Adds p s.number h in
    let b = add_int-Adds _ s.size a.framed in
    let c = add_int-Adds _ s.index_page b.framed in
    Adds-trans p _ _ _ (segment_bytes ss) (Adds-trans p _ _ _ _ a (Adds-trans _ _ _ _ _ b c))
      (add_segments-Adds ss _ c.framed)

add_segment_table-Adds :
    (p : Package) (ss : List Segment)
    → IsFramed p
    → Adds p (add_segment_table_to_package p ss) (int_bytes (pos (length ss)) ++ segment_bytes ss)
unfolding add_segment_table_to_package
add_segment_table-Adds p ss h =
    let first = add_int-Adds p (pos (length ss)) h in
    Adds-trans p _ _ _ (segment_bytes ss) first (add_segments-Adds ss _ first.framed)

pub add_pcb-Adds :
    (p : Package) (pcb : Pcb) → IsFramed p → Adds p (add_pcb_to_package p pcb) (pcb_bytes pcb)
unfolding add_pcb_to_package pcb_bytes
add_pcb-Adds p pcb h =
    let a₁ = add_int-Adds p pcb.process_id h in
    let a₂ = add_int-Adds _ (status_int pcb.status) a₁.framed in
    let a₃ = add_int-Adds _ pcb.size a₂.framed in
    let a₄ = add_string_array-Adds _ pcb.instructions a₃.framed in
    let a₅ = add_registers-Adds _ pcb.cpu_registers a₄.framed in
    let a₆ = add_int-Adds _ pcb.program_counter a₅.framed in
    let a₇ = add_int-Adds _ pcb.client_socket a₆.framed in
    let a₈ = add_segment_table-Adds _ pcb.segment_table a₇.framed in
    Adds-trans p _ _ _ _ a₁ (
      Adds-trans _ _ _ _ _ a₂ (
        Adds-trans _ _ _ _ _ a₃ (
          Adds-trans _ _ _ _ _ a₄
            (Adds-trans _ _ _ _ _ a₅ (Adds-trans _ _ _ _ _ a₆ (Adds-trans _ _ _ _ _ a₇ a₈))))))

-- The last part of an I/O request: text for the console's devices, a number for any other.
abbrev pub parameter_bytes : Text → Text → List ℕ
parameter_bytes device parameter =
    if is_console_device device
    then value_bytes (with_terminator parameter)
    else int_bytes (atoi parameter)

pub io_package-Adds :
    (pcb : Pcb) (device parameter : Text) (request : Bool)
    → Adds (create_package (io_code device request)) (io_package pcb device parameter request) (
        pcb_bytes pcb ++ (value_bytes (with_terminator device) ++ parameter_bytes device parameter))
unfolding io_package
io_package-Adds pcb device parameter request =
    let a =
      add_pcb-Adds (create_package (io_code device request)) pcb (create_package-IsFramed _) in
    let b = add_value-Adds _ (with_terminator device) a.framed in
    elim (Bool-cases (is_console_device device)) [
      | inl e ↦ rw e (
          Adds-trans _ _ _ _ _ a
            (Adds-trans _ _ _ _ _ b (add_value-Adds _ (with_terminator parameter) b.framed)))
      | inr e ↦ rw e (
          Adds-trans _ _ _ _ _ a
            (Adds-trans _ _ _ _ _ b (add_int-Adds _ (atoi parameter) b.framed)))
    ]
