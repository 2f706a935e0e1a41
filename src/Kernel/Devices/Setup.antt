-- ===== src/Kernel/Devices/Setup.antt =====
-- The devices of the configuration, when kernel/src/kernel.c starts.
use geck.Prelude.{
  ℕ, zero, suc, ◌≡◌, ◌≢◌, refl, sym, ◌∙◌, inl, inr, List, [], ◌∷◌, get_elem?, Bool, false,
  Bool-cases, some, arith,
}
use geck.Shared.Strings.{Text, strcmp_eq, strcmp_eq_iff, atoi}
use geck.Kernel.{KernelConfig, Device, init_kernel}
use geck.Kernel.Devices.{
  dictionary_get, dictionary_put, create_queue_for_io, init_device_config_dictionary,
}
use geck.Kernel.Devices.Order.{HasQueue}

put_self :
    (devices : List (Text × Device)) (name : Text) (new : Device)
    → dictionary_get (dictionary_put devices name new) name ≡ some new
unfolding dictionary_get dictionary_put
put_self [] name new = rw ((strcmp_eq_iff name name).1 refl) refl
put_self ((key, old) ∷ rest) name new = elim (Bool-cases (strcmp_eq key name)) [
  | inl same ↦ rw (same, same) refl
  | inr other ↦ rw (other, other) (put_self rest name new)
]

put_other :
    (devices : List (Text × Device)) (name other : Text) (new : Device)
    → name ≢ other
    → dictionary_get (dictionary_put devices name new) other ≡ dictionary_get devices other
unfolding dictionary_get dictionary_put
put_other [] name other new ne = elim (Bool-cases (strcmp_eq name other)) [
  | inl same ↦ absurd (ne ((strcmp_eq_iff name other).0 same))
  | inr apart ↦ rw apart refl
]
put_other ((key, old) ∷ rest) name other new ne = elim (Bool-cases (strcmp_eq key name)) [
  | inl same ↦
      let apart : strcmp_eq key other ≡ false = elim (Bool-cases (strcmp_eq key other)) [
        | inl here ↦
            absurd (ne (sym ((strcmp_eq_iff key name).0 same) ∙ (strcmp_eq_iff key other).0 here))
        | inr there ↦ there
      ] in
      rw (same, apart) refl
  | inr apart ↦ elim (Bool-cases (strcmp_eq key other)) [
    | inl here ↦ rw (apart, here) refl
    | inr there ↦ rw (apart, there) (put_other rest name other new ne)
  ]
]

-- No device of the list has the name.
abbrev pub IsFreshIn : Text → List Text → Type 0
IsFreshIn name names = (i : ℕ) (other : Text) → get_elem? names i ≡ some other → other ≢ name

init_keeps :
    (names times : List Text) (devices : List (Text × Device)) (name : Text)
    → IsFreshIn name names
    → dictionary_get (init_device_config_dictionary names times devices) name
      ≡ dictionary_get devices name
unfolding init_device_config_dictionary
init_keeps [] times devices name h = refl
init_keeps (n ∷ names) [] devices name h = refl
init_keeps (n ∷ names) (t ∷ times) devices name h =
    init_keeps names times (dictionary_put devices n (create_queue_for_io n t)) name
      (λ i. h (suc i))
    ∙ put_other devices n name _ (h 0 n refl)

-- The names of the configuration are different.
abbrev pub IsDistinct : List Text → Type 0
IsDistinct names =
    (i j : ℕ) (a b : Text) → get_elem? names i ≡ some a → get_elem? names j ≡ some b → a ≡ b → i ≡ j

tail-IsDistinct : (n : Text) (names : List Text) → IsDistinct (n ∷ names) → IsDistinct names
tail-IsDistinct n names d i j a b h h' e = omega (arith, d (suc i) (suc j) a b h h' e)

init_finds :
    (names times : List Text) (devices : List (Text × Device)) (i : ℕ) (name time : Text)
    → IsDistinct names
    → get_elem? names i ≡ some name
    → get_elem? times i ≡ some time
    → dictionary_get (init_device_config_dictionary names times devices) name
      ≡ some (create_queue_for_io name time)
unfolding init_device_config_dictionary
init_finds [] times devices i name time d h h' = absurd (cc)
init_finds (n ∷ names) [] devices i name time d h h' = absurd (cc)
init_finds (n ∷ names) (t ∷ times) devices zero name time d h h' =
    let here : n ≡ name = cc in
    let at : t ≡ time = cc in
    init_keeps names times (dictionary_put devices n (create_queue_for_io n t)) name
      (λ j other e same. omega (arith, d 0 (suc j) n other refl e (here ∙ sym same)))
    ∙ rw (here, at) (put_self devices name (create_queue_for_io name time))
init_finds (n ∷ names) (t ∷ times) devices (suc i) name time d h h' =
    init_finds names times (dictionary_put devices n (create_queue_for_io n t)) i name time
      (tail-IsDistinct n names d) h h'

-- Every device of the configuration is there at the start, with its own time and an empty queue. The
-- names are different, and the device has a name and a time at the same index.
pub init_kernel-HasQueue :
    (same : Text → Text → Bool) (c : KernelConfig) (names times : List Text) (i : ℕ)
    (name time : Text)
    → IsDistinct names
    → get_elem? names i ≡ some name
    → get_elem? times i ≡ some time
    → (h : HasQueue (init_kernel same c (init_device_config_dictionary names times [])) name [])
      × (h.device.device_locked_time ≡ atoi time)
unfolding init_kernel create_queue_for_io
init_kernel-HasQueue same c names times i name time d h h' = (
  record {
    device = create_queue_for_io name time;
    found = init_finds names times [] i name time d h h';
    queued = refl;
    counted = refl;
  },
  refl,
)
