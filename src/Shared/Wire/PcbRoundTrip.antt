-- ===== src/Shared/Wire/PcbRoundTrip.antt =====
-- A reader gives back what the writer appended, and leaves the bytes that follow.
use geck.Prelude.{
  ℕ, zero, suc, ◌+◌, ◌^◌, ◌<◌, ◌≡◌, refl, ℤ, pos, IsInt, IsU32, word, signed-word, word-lt, List,
  [], ◌∷◌, ◌++◌, append_assoc, arith, length, length-append, All, some, take-append, drop-append,
}
use geck.Shared.Strings.{Text}
use geck.Shared.{
  PcbStatus, new, ready, blocked, running, exit, unregistered, status_int, status_of_int, Pcb,
  Segment, Registers,
}
use geck.Shared.Wire.{
  word_bytes, with_terminator, read_uint32, read_int, c_string, read_bytes, read_string,
  read_strings, read_string_array, read_segment, read_segments, read_registers, read_pcb,
}
use geck.Shared.Wire.Bytes.{
  int_bytes, value_bytes, string_bytes, segment_bytes, register_bytes, pcb_bytes,
}

-- A string that a C `char*` can hold, and whose size an `int` can hold.
pub record IsText (t : Text) : Type 0 where
  pub no_nul : All (λ c. 0 < c) t
  pub fits : length t + 1 < 2 ^ 31

pub record IsSegment (s : Segment) : Type 0 where
  pub number_in : IsInt s.number
  pub size_in : IsInt s.size
  pub index_in : IsInt s.index_page

-- The status is one of the five enumerators.
abbrev pub IsRegistered : PcbStatus → Type 0
IsRegistered (unregistered z) = ⊥
IsRegistered _ = Unit {0}

-- A process control block whose fields hold what their C types hold.
pub record IsPcb (pcb : Pcb) : Type 0 where
  pub pid_in : IsInt pcb.process_id
  pub size_in : IsInt pcb.size
  pub counter_in : IsInt pcb.program_counter
  pub socket_in : IsInt pcb.client_socket
  pub ax_in : IsU32 pcb.cpu_registers.ax
  pub bx_in : IsU32 pcb.cpu_registers.bx
  pub cx_in : IsU32 pcb.cpu_registers.cx
  pub dx_in : IsU32 pcb.cpu_registers.dx
  pub status_in : IsRegistered pcb.status
  pub texts : All IsText pcb.instructions
  pub texts_fit : length pcb.instructions < 2 ^ 31
  pub segments : All IsSegment pcb.segment_table
  pub segments_fit : length pcb.segment_table < 2 ^ 31

pub read_uint32_word :
    (w : ℕ) (rest : List ℕ) → IsU32 w → read_uint32 (word_bytes w ++ rest) ≡ some (w, rest)
unfolding read_uint32
read_uint32_word w rest h = ground arith

pub read_int_bytes :
    (x : ℤ) (rest : List ℕ) → IsInt x → read_int (int_bytes x ++ rest) ≡ some (x, rest)
unfolding read_int
read_int_bytes x rest h = rw (read_uint32_word (word x) rest (word-lt x), signed-word x h)

c_string_terminated : (t : Text) → All (λ c. 0 < c) t → c_string (with_terminator t) ≡ some t
unfolding c_string
c_string_terminated [] h = refl
c_string_terminated (zero ∷ t) h = absurd (omega arith)
c_string_terminated (suc c ∷ t) h = rw (c_string_terminated t h.1)

pub read_bytes_append : (xs rest : List ℕ) → read_bytes (length xs) (xs ++ rest) ≡ some (xs, rest)
unfolding read_bytes
read_bytes_append xs rest =
    rw (take-append xs rest, drop-append xs rest) (ground (arith, length-append xs rest))

length_terminated : (t : Text) → IsText t → IsInt (pos (length (with_terminator t)))
length_terminated t h = omega (arith, length-append t (0 ∷ []), h.fits)

pub read_string_value :
    (t : Text) (rest : List ℕ)
    → IsText t
    → read_string (value_bytes (with_terminator t) ++ rest) ≡ some (t, rest)
unfolding read_string
read_string_value t rest h = rw (
  read_int_bytes (pos (length (with_terminator t))) (with_terminator t ++ rest)
      (length_terminated t h),
  read_bytes_append (with_terminator t) rest,
  c_string_terminated t h.no_nul,
)

read_strings_bytes :
    (ts : List Text) (rest : List ℕ)
    → All IsText ts
    → read_strings (length ts) (string_bytes ts ++ rest) ≡ some (ts, rest)
unfolding read_strings
read_strings_bytes [] rest h = refl
read_strings_bytes (t ∷ ts) rest h = rw (
  append_assoc (value_bytes (with_terminator t)) (string_bytes ts) rest,
  read_string_value t (string_bytes ts ++ rest) h.0,
  read_strings_bytes ts rest h.1,
)

pub read_string_array_bytes :
    (ts : List Text) (rest : List ℕ)
    → All IsText ts
    → length ts < 2 ^ 31
    → read_string_array ((int_bytes (pos (length ts)) ++ string_bytes ts) ++ rest) ≡ some (ts, rest)
unfolding read_string_array
read_string_array_bytes ts rest h fits =
    rw (
      read_int_bytes (pos (length ts)) (string_bytes ts ++ rest) fits,
      read_strings_bytes ts rest h,
    )

read_segment_bytes :
    (s : Segment) (rest : List ℕ)
    → IsSegment s
    → read_segment ((int_bytes s.number ++ (int_bytes s.size ++ int_bytes s.index_page)) ++ rest)
      ≡ some (s, rest)
unfolding read_segment
read_segment_bytes s rest h = rw (
  read_int_bytes s.number (int_bytes s.size ++ (int_bytes s.index_page ++ rest)) h.number_in,
  read_int_bytes s.size (int_bytes s.index_page ++ rest) h.size_in,
  read_int_bytes s.index_page rest h.index_in,
)

read_segments_bytes :
    (ss : List Segment) (rest : List ℕ)
    → All IsSegment ss
    → read_segments (length ss) (segment_bytes ss ++ rest) ≡ some (ss, rest)
unfolding read_segments
read_segments_bytes [] rest h = refl
read_segments_bytes (s ∷ ss) rest h =
    rw (read_segment_bytes s (segment_bytes ss ++ rest) h.0, read_segments_bytes ss rest h.1)

read_registers_bytes :
    (r : Registers) (rest : List ℕ)
    → IsU32 r.ax
    → IsU32 r.bx
    → IsU32 r.cx
    → IsU32 r.dx
    → read_registers (register_bytes r ++ rest) ≡ some (r, rest)
unfolding read_registers
read_registers_bytes r rest ha hb hc hd = rw (
  read_uint32_word r.ax (word_bytes r.bx ++ (word_bytes r.cx ++ (word_bytes r.dx ++ rest))) ha,
  read_uint32_word r.bx (word_bytes r.cx ++ (word_bytes r.dx ++ rest)) hb,
  read_uint32_word r.cx (word_bytes r.dx ++ rest) hc,
  read_uint32_word r.dx rest hd,
)

status_round_trip : (s : PcbStatus) → IsRegistered s → status_of_int (status_int s) ≡ s
unfolding status_of_int status_int
status_round_trip new h = refl
status_round_trip ready h = refl
status_round_trip blocked h = refl
status_round_trip running h = refl
status_round_trip exit h = refl
status_round_trip (unregistered z) h = absurd h

status_in_range : (s : PcbStatus) → IsRegistered s → IsInt (status_int s)
unfolding status_int
status_in_range new h = omega arith
status_in_range ready h = omega arith
status_in_range blocked h = omega arith
status_in_range running h = omega arith
status_in_range exit h = omega arith
status_in_range (unregistered z) h = absurd h

-- `read_pcb` gives back every block whose fields fit their C types from the bytes that
-- `add_pcb_to_package` appends for it, and leaves the bytes that follow unread.
pub read_pcb_bytes :
    (pcb : Pcb) (rest : List ℕ) → IsPcb pcb → read_pcb (pcb_bytes pcb ++ rest) ≡ some (pcb, rest)
unfolding read_pcb pcb_bytes
read_pcb_bytes pcb rest h =
    let r₈ = segment_bytes pcb.segment_table ++ rest in
    let r₇ = int_bytes (pos (length pcb.segment_table)) ++ r₈ in
    let r₆ = int_bytes pcb.client_socket ++ r₇ in
    let r₅ = int_bytes pcb.program_counter ++ r₆ in
    let r₄ = register_bytes pcb.cpu_registers ++ r₅ in
    let strings = int_bytes (pos (length pcb.instructions)) ++ string_bytes pcb.instructions in
    rw (
      append_assoc (string_bytes pcb.instructions)
          (register_bytes pcb.cpu_registers
            ++ (int_bytes pcb.program_counter
                ++ (int_bytes pcb.client_socket
                    ++ (int_bytes (pos (length pcb.segment_table))
                        ++ segment_bytes pcb.segment_table))))
          rest,
      read_int_bytes pcb.process_id _ h.pid_in,
      read_int_bytes (status_int pcb.status) _ (status_in_range pcb.status h.status_in),
      read_int_bytes pcb.size _ h.size_in,
      read_string_array_bytes pcb.instructions r₄ h.texts h.texts_fit,
      read_registers_bytes pcb.cpu_registers r₅ h.ax_in h.bx_in h.cx_in h.dx_in,
      read_int_bytes pcb.program_counter r₆ h.counter_in,
      read_int_bytes pcb.client_socket r₇ h.socket_in,
      read_int_bytes (pos (length pcb.segment_table)) r₈ h.segments_fit,
      read_segments_bytes pcb.segment_table rest h.segments,
      status_round_trip pcb.status h.status_in,
    )
