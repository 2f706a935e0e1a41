-- ===== src/Kernel/Devices/Order.antt =====
-- The queue of a default device of kernel/src/kernel.c: what waits for it and in which order it is served.
use geck.Prelude.{
  suc, ◌-◌, ◌==◌, ℤ, List, [], ◌∷◌, ◌++◌, length, length-append, Bool, false, Bool-cases, some, ◌≡◌,
  inl, inr, refl, arith, ap,
}
use geck.Shared.Strings.{Text, strcmp_eq}
use geck.Shared.{Pcb}
use geck.Kernel.{KernelConfig, Device, Kernel, done}
use geck.Kernel.Ready.{is_feedback, make_ready, post_ready}
use geck.Kernel.Devices.{
  dictionary_get, dictionary_put, execute_io_default, serve, simulate_io_default,
}

pub dictionary_get-dictionary_put :
    (devices : List (Text × Device)) (name : Text) (device new : Device)
    → dictionary_get devices name ≡ some device
    → dictionary_get (dictionary_put devices name new) name ≡ some new
unfolding dictionary_get dictionary_put
dictionary_get-dictionary_put [] name device new found = absurd (cc)
dictionary_get-dictionary_put ((key, old) ∷ rest) name device new found =
    elim (Bool-cases (strcmp_eq key name)) [
      | inl same ↦ rw (same, same) refl
      | inr other ↦
          rw (other, other) (dictionary_get-dictionary_put rest name device new (rw other at found))
    ]

-- The device under a name, with as many posts as processes.
pub record HasQueue (k : Kernel) (name : Text) (waiting : List (ℤ × Pcb)) : Type 0 where
  pub device : Device
  pub found : dictionary_get k.dictionary_io name ≡ some device
  pub queued : device.list_processes ≡ waiting
  pub counted : device.sem_devices ≡ length waiting

-- A process that asks for a device of the configuration goes behind those that wait for it, and the
-- device's semaphore counts it.
pub execute_io_default-HasQueue :
    (k : Kernel) (name : Text) (waiting : List (ℤ × Pcb)) (pcb : Pcb) (time : ℤ)
    → HasQueue k name waiting
    → (k' : Kernel) × (execute_io_default pcb name time k ≡ some k')
      × HasQueue k' name (waiting ++ (time, pcb) ∷ [])
unfolding execute_io_default
execute_io_default-HasQueue k name waiting pcb time h =
    let longer : Device = record h.device {
      list_processes = h.device.list_processes ++ (time, pcb) ∷ [];
      sem_devices = suc h.device.sem_devices;
    } in
    (
      record k { dictionary_io = dictionary_put k.dictionary_io name longer },
      rw h.found refl,
      record {
        device = longer;
        found = dictionary_get-dictionary_put k.dictionary_io name h.device longer h.found;
        queued = ap (λ w. w ++ (time, pcb) ∷ []) h.queued;
        counted = omega (arith, h.counted, length-append waiting ((time, pcb) ∷ []));
      },
    )

-- A device with processes that wait serves the first of them: it becomes ready, the scheduler's semaphore
-- counts it, and the device keeps the rest, which its semaphore counts.
pub simulate_io_default-HasQueue :
    (same : Text → Text → Bool) (c : KernelConfig) (k : Kernel) (name : Text) (time : ℤ) (pcb : Pcb)
    (rest : List (ℤ × Pcb))
    → HasQueue k name ((time, pcb) ∷ rest)
    → (k' : Kernel) × (simulate_io_default same c name k
        ≡ done (post_ready same c (make_ready same c pcb k')) [])
      × HasQueue (post_ready same c (make_ready same c pcb k')) name rest
      × ((post_ready same c (make_ready same c pcb k')).sem_process_in_ready
          ≡ suc k.sem_process_in_ready)
unfolding simulate_io_default
simulate_io_default-HasQueue same c k name time pcb rest h =
    let shorter : Device = record h.device {
      list_processes = rest;
      sem_devices = h.device.sem_devices - 1;
    } in
    let k' : Kernel = record k { dictionary_io = dictionary_put k.dictionary_io name shorter } in
    let busy : (h.device.sem_devices == 0) ≡ false = ground (arith, h.counted) in
    let left = dictionary_get-dictionary_put k.dictionary_io name h.device shorter h.found in
    let fewer : h.device.sem_devices - 1 ≡ length rest = omega (arith, h.counted) in
    (
      k',
      rw (h.found, busy) (ap (λ w. serve same c name k w h.device) h.queued),
      elim (Bool-cases (is_feedback same c)) [
        | inl feedback ↦
            rw feedback (record { device = shorter; found = left; queued = refl; counted = fewer })
        | inr plain ↦
            rw plain (record { device = shorter; found = left; queued = refl; counted = fewer })
      ],
      elim (Bool-cases (is_feedback same c)) [
        | inl feedback ↦ rw feedback refl
        | inr plain ↦ rw plain refl
      ],
    )
