-- ===== src/Kernel/System/Exceeds.antt =====
-- What every step of kernel/src/kernel.c does under FEEDBACK to READY and the posts that count it.
use geck.Prelude.{
  ℕ, zero, suc, ◌+◌, ◌==◌, ℤ, List, [], ◌∷◌, length, Bool, true, false, not, ◌||◌, Bool-cases,
  Option-cases, Option, none, some, ◌>>=◌, ◌≡◌, inl, inr, ap, arith,
}
use geck.Shared.Strings.{Text, codes, strcmp_eq}
use geck.Shared.{Pcb}
use geck.Kernel.{KernelConfig, Device, Kernel, QuantumThread, resting, counting, waiting, outcome}
use geck.Kernel.Ready.{
  make_ready, post_ready, place_initialized, dispatch_next, init_process, io_response,
  take_schedule_ready, take_process_in_ready, begin_next_to_ready, memory_initialized,
  finish_next_to_ready, schedule_next_to_running,
}
use geck.Kernel.Dispatch.{
  DispatchMessage, io_console, io_default, execute_interruption, seg_fault, page_fault, end_process,
  requeue, free_cpu, manage_dispatch, resolve_page_fault, page_fault_resolved,
}
use geck.Kernel.Devices.{
  dictionary_get, serve, simulate_device, execute_io_default, simulate_io_default,
}
use geck.Kernel.Quantum.{read_clock, quantum_step, count_quantum_of_round_robin, manage_interrupt}
use geck.Kernel.System.{
  Event, console_init, console_io, take_turn, begin_ready, memory_init, finish_ready, take_ready,
  schedule, cpu, fault_thread, memory_fault, serve_device, clock, interrupt, step,
}
use geck.Kernel.System.Keeps.{Then, count, Agrees, length-snoc, list-cases}
use geck.Kernel.System.Steps.{faults-cases, Then-mark_out, Then-with_mutex, read_clock-agree}

-- The algorithm is FEEDBACK, and `same` tells it from RR.
pub record IsFeedback (same : Text → Text → Bool) (c : KernelConfig) : Type 0 where
  pub named : c.algoritmo_planificacion ≡ codes "FEEDBACK"
  pub known : same c.algoritmo_planificacion (codes "FEEDBACK") ≡ true
  pub no_rr : same c.algoritmo_planificacion (codes "RR") ≡ false

-- How many page faults of the sequence the memory has answered.
abbrev pub answered_fault : Event → ℕ
answered_fault (memory_fault pcb) = 1
answered_fault _ = 0

abbrev pub answered_faults : List Event → ℕ
answered_faults [] = 0
answered_faults (e ∷ rest) = answered_fault e + answered_faults rest

-- A sum that computes by its first number.
abbrev pub plus : ℕ → ℕ → ℕ
plus zero n = n
plus (suc m) n = suc (plus m n)

pub plus-eq : (m n : ℕ) → plus m n ≡ m + n
plus-eq zero n = omega arith
plus-eq (suc m) n = omega (arith, plus-eq m n)

-- READY has `n` processes more than there are posts, the one that the scheduler may hold included.
abbrev pub Exceeds : ℕ → Kernel → Type 0
Exceeds n k =
    k.sem_process_in_ready + count k.scheduling + n
    ≡ length k.list_ready_rr + length k.list_ready_fifo

agree-Exceeds : (n : ℕ) (k k' : Kernel) → Agrees k k' → Exceeds n k → Exceeds n k'
agree-Exceeds n k k' (posts, held, ready, starting, entering, initializing, new, turn, rr, fifo) w =
    rw (posts, held, rr, fifo) w

module _ (same : Text → Text → Bool) (c : KernelConfig) (feedback : IsFeedback same c) (n : ℕ) where
  post-Exceeds :
      (pcb : Pcb) (k : Kernel)
      → Exceeds n k
      → Exceeds n (post_ready same c (make_ready same c pcb k))
  post-Exceeds pcb k w = rw feedback.known (omega (arith, w, length-snoc k.list_ready_rr _))

  place-Exceeds :
      (pcb : Pcb) (k : Kernel) → Exceeds n k → Exceeds n (place_initialized same c pcb k)
  place-Exceeds pcb k w = rw feedback.known (omega (arith, w, length-snoc k.list_ready_rr _))

  requeue-Exceeds : (pcb : Pcb) (k : Kernel) → Exceeds n k → Exceeds n (requeue same c pcb k)
  requeue-Exceeds pcb k w =
      rw (feedback.no_rr, feedback.known) (omega (arith, w, length-snoc k.list_ready_fifo _))

  turn-Exceeds : (k : Kernel) → Exceeds n k → Then (Exceeds n) (take_schedule_ready same c k)
  unfolding take_schedule_ready
  turn-Exceeds k w = elim (Bool-cases (k.starting == 0 || k.sem_schedule_ready == 0)) [
    | inl waits ↦ rw waits tt
    | inr free ↦ rw free w
  ]

  take-Exceeds : (k : Kernel) → Exceeds n k → Then (Exceeds n) (take_process_in_ready same c k)
  unfolding take_process_in_ready
  take-Exceeds k w = elim (Bool-cases (k.scheduling || k.sem_process_in_ready == 0)) [
    | inl waits ↦ rw waits tt
    | inr free ↦ rw free (ground (arith, w, free))
  ]

  begin-Exceeds : (k : Kernel) → Exceeds n k → Then (Exceeds n) (begin_next_to_ready same c k)
  unfolding begin_next_to_ready
  begin-Exceeds k w = elim (Bool-cases (not k.entering || k.sem_grado_multiprogamacion == 0)) [
    | inl waits ↦ rw waits tt
    | inr free ↦ elim (list-cases k.list_new) [
      | inl empty ↦ rw (free, empty) w
      | inr (pcb, rest, e) ↦ rw (free, e) w
    ]
  ]

  finish-Exceeds : (k : Kernel) → Exceeds n k → Then (Exceeds n) (finish_next_to_ready same c k)
  unfolding finish_next_to_ready
  finish-Exceeds k w = elim (Bool-cases (not k.initializing || k.sem_init_process_memory == 0)) [
    | inl waits ↦ rw waits tt
    | inr free ↦ elim (list-cases k.list_new) [
      | inl empty ↦ rw (free, empty) tt
      | inr (pcb, rest, e) ↦ rw (free, e) (place-Exceeds pcb _ w)
    ]
  ]

  schedule-Exceeds :
      (k : Kernel) → Exceeds n k → Then (Exceeds n) (schedule_next_to_running same c k)
  unfolding schedule_next_to_running dispatch_next strcmp_eq
  schedule-Exceeds k w = elim (Bool-cases (not k.scheduling || k.sem_cpu_free_to_execute == 0)) [
    | inl waits ↦ rw waits tt
    | inr free ↦ elim (list-cases k.list_ready_rr) [
      | inr (pcb, rest, e) ↦
          rw (free, feedback.named, rw feedback.named at feedback.known, e)
            (ground (arith, w, ap length e, free))
      | inl empty ↦ elim (list-cases k.list_ready_fifo) [
        | inr (pcb, rest, e) ↦
            rw (free, feedback.named, rw feedback.named at feedback.known, empty, e)
              (ground (arith, w, ap length empty, ap length e, free))
        | inl none_left ↦ absurd (ground (arith, w, ap length empty, ap length none_left, free))
      ]
    ]
  ]

  io_default-Exceeds :
      (pcb : Pcb) (device : Text) (parameter : ℤ) (k : Kernel)
      → Exceeds n k
      → Then
          (Exceeds n)
          (outcome (execute_io_default pcb device parameter k >>= λ k'. some (k', [])))
  unfolding execute_io_default
  io_default-Exceeds pcb device parameter k w =
      elim (Option-cases (dictionary_get k.dictionary_io device)) [
        | inl unknown ↦ rw unknown tt
        | inr (found, e) ↦ rw e w
      ]

  dispatch-Exceeds :
      (message : DispatchMessage) (k : Kernel)
      → Exceeds n k
      → Then (Exceeds n) (manage_dispatch same c message k)
  unfolding manage_dispatch
  dispatch-Exceeds (io_console pcb device parameter) k w =
      Then-with_mutex (Exceeds n) k _
        (Then-mark_out (Exceeds n) (free_cpu k) _ (λ k' a. agree-Exceeds n (free_cpu k) k' a w))
  dispatch-Exceeds (io_default pcb device parameter) k w = Then-with_mutex (Exceeds n) k _ (
      Then-mark_out (Exceeds n) (free_cpu k) _
        (λ k' a. io_default-Exceeds _ device parameter _ (agree-Exceeds n (free_cpu k) k' a w)))
  dispatch-Exceeds (execute_interruption pcb) k w = requeue-Exceeds pcb _ w
  dispatch-Exceeds (seg_fault pcb) k w =
      Then-with_mutex (Exceeds n) k _
        (Then-mark_out (Exceeds n) (free_cpu k) _ (λ k' a. agree-Exceeds n (free_cpu k) k' a w))
  dispatch-Exceeds (page_fault pcb segment page) k w = w
  dispatch-Exceeds (end_process pcb) k w =
      Then-with_mutex (Exceeds n) k _
        (Then-mark_out (Exceeds n) (free_cpu k) _ (λ k' a. agree-Exceeds n (free_cpu k) k' a w))

  resolve-Exceeds : (k : Kernel) → Exceeds n k → Then (Exceeds n) (resolve_page_fault same c k)
  unfolding resolve_page_fault
  resolve-Exceeds k w = elim (Bool-cases k.resolving) [
    | inl locked ↦ rw locked tt
    | inr free ↦ elim (faults-cases k.faults) [
      | inl empty ↦ rw (free, empty) tt
      | inr (first, rest, e) ↦ rw (free, e) w
    ]
  ]

  -- The answer to a page fault puts a process into READY and posts nothing.
  resolved-Exceeds :
      (pcb : Pcb) (k : Kernel)
      → Exceeds n k
      → Then (Exceeds (suc n)) (page_fault_resolved same c pcb k)
  unfolding page_fault_resolved
  resolved-Exceeds pcb k w = rw feedback.known (omega (arith, w, length-snoc k.list_ready_rr _))

  serve-Exceeds :
      (name : Text) (k : Kernel) (waiting : List (ℤ × Pcb)) (device : Device)
      → Exceeds n k
      → Then (Exceeds n) (serve same c name k waiting device)
  serve-Exceeds name k [] device w = tt
  serve-Exceeds name k ((time, pcb) ∷ rest) device w = post-Exceeds pcb _ w

  device-Exceeds :
      (name : Text) (k : Kernel) (found : Option Device)
      → Exceeds n k
      → Then (Exceeds n) (simulate_device same c name k found)
  device-Exceeds name k none w = tt
  device-Exceeds name k (some device) w = elim (Bool-cases (device.sem_devices == 0)) [
    | inl waits ↦ rw waits tt
    | inr free ↦ rw free (serve-Exceeds name k device.list_processes device w)
  ]

  quantum-Exceeds :
      (q : QuantumThread) (elapsed : Bool) (k : Kernel)
      → Exceeds n k
      → Then (Exceeds n) (quantum_step q elapsed k)
  quantum-Exceeds resting elapsed k w = elim (Bool-cases (k.sem_beggin_quantum == 0)) [
    | inl waits ↦ rw waits tt
    | inr free ↦ rw free w
  ]
  quantum-Exceeds counting elapsed k w =
      agree-Exceeds n k (read_clock elapsed k) (read_clock-agree elapsed k) w
  quantum-Exceeds waiting elapsed k w = elim (Bool-cases (k.sem_interruption_quantum_finish == 0)) [
    | inl waits ↦ rw waits tt
    | inr free ↦ rw free w
  ]

  interrupt-Exceeds : (k : Kernel) → Exceeds n k → Then (Exceeds n) (manage_interrupt k)
  unfolding manage_interrupt
  interrupt-Exceeds k w = elim (Bool-cases (k.sem_interruption_quantum == 0)) [
    | inl waits ↦ rw waits tt
    | inr free ↦ elim (list-cases k.list_running) [
      | inl empty ↦ rw (free, empty) w
      | inr (pcb, rest, e) ↦ rw (free, e) w
    ]
  ]

  pub step-Exceeds :
      (e : Event) (k : Kernel)
      → Exceeds n k
      → Then (Exceeds (plus (answered_fault e) n)) (step same c e k)
  unfolding step init_process io_response memory_initialized simulate_io_default
      count_quantum_of_round_robin
  step-Exceeds (console_init socket instructions segments) k w = w
  step-Exceeds (console_io pcb) k w = post-Exceeds pcb k w
  step-Exceeds take_turn k w = turn-Exceeds k w
  step-Exceeds begin_ready k w = begin-Exceeds k w
  step-Exceeds (memory_init pcb) k w = w
  step-Exceeds finish_ready k w = finish-Exceeds k w
  step-Exceeds take_ready k w = take-Exceeds k w
  step-Exceeds schedule k w = schedule-Exceeds k w
  step-Exceeds (cpu message) k w = dispatch-Exceeds message k w
  step-Exceeds fault_thread k w = resolve-Exceeds k w
  step-Exceeds (memory_fault pcb) k w = resolved-Exceeds pcb k w
  step-Exceeds (serve_device name) k w =
      device-Exceeds name k (dictionary_get k.dictionary_io name) w
  step-Exceeds (clock elapsed) k w = quantum-Exceeds k.quantum elapsed k w
  step-Exceeds interrupt k w = interrupt-Exceeds k w
