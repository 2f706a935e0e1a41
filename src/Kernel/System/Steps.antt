-- ===== src/Kernel/System/Steps.antt =====
-- The other steps of kernel/src/kernel.c under FIFO and RR: messages of the CPU and of the memory, the
-- devices and the quantum.
use geck.Prelude.{
  suc, ◌==◌, ℤ, List, [], ◌∷◌, Bool, true, false, Bool-cases, Option-cases, Option, none, some,
  if◌then◌else◌, ◌>>=◌, ◌≡◌, ◌⊎◌, inl, inr, refl, arith,
}
use geck.Shared.Strings.{Text, codes, strcmp_eq}
use geck.Shared.{Pcb}
use geck.Kernel.{
  KernelConfig, Device, Kernel, QuantumThread, resting, counting, waiting, Message, Outcome,
  outcome,
}
use geck.Kernel.Dispatch.{
  DispatchMessage, io_console, io_default, execute_interruption, seg_fault, page_fault, end_process,
  requeue, with_mutex, holds_mutex, mark_out, free_cpu, manage_dispatch, resolve_page_fault,
  page_fault_resolved,
}
use geck.Kernel.Devices.{
  simulate_device, dictionary_get, serve, execute_io_default, simulate_io_default,
}
use geck.Kernel.Quantum.{read_clock, quantum_step, count_quantum_of_round_robin, manage_interrupt}
use geck.Kernel.System.{
  Event, console_init, console_io, begin_ready, memory_init, finish_ready, schedule, cpu,
  fault_thread, memory_fault, serve_device, clock, interrupt, take_turn, take_ready, step,
}
use geck.Kernel.System.Keeps.{
  IsSequential, IsConsistent, Then, Agrees, agree_self, agree, length-snoc, list-cases,
  post-IsConsistent, take_turn-keeps, take_ready-keeps, init_process-keeps, io_response-keeps,
  begin-keeps, memory_init-keeps, finish-keeps, schedule-keeps,
}

pub faults-cases :
    (faults : List (Pcb × ℤ × ℤ))
    → (faults ≡ [])
      ⊎ ((first : Pcb × ℤ × ℤ) × (rest : List (Pcb × ℤ × ℤ)) × (faults ≡ first ∷ rest))
faults-cases [] = inl refl
faults-cases (first ∷ rest) = inr (first, rest, refl)

-- What `mark_out` hands on differs in its flag only.
pub Then-mark_out :
    (P : Kernel → Type 0) (k : Kernel) (f : Kernel → Option (Kernel × List Message))
    → ((k' : Kernel) → Agrees k k' → Then P (outcome (f k')))
    → Then P (outcome (mark_out k >>= f))
Then-mark_out P k f h = marked k.ultimo
  where
    chosen :
        (b : Bool) → Then P (outcome (f (if b then record k { flag_out_of_running = true } else k)))
    chosen true = h (record k { flag_out_of_running = true }) (agree_self k)
    chosen false = h k (agree_self k)

    marked :
        (last : Option Text)
        → Then P (
            outcome (
              (last >>= λ l.
              some
                (if strcmp_eq l (codes "RR") then record k { flag_out_of_running = true } else k))
              >>= f))
    marked none = tt
    marked (some last) = chosen (strcmp_eq last (codes "RR"))

pub Then-with_mutex :
    (P : Kernel → Type 0) (k : Kernel) (o : Outcome) → Then P o → Then P (with_mutex k o)
Then-with_mutex P k o h = elim (Bool-cases (holds_mutex k.quantum)) [
  | inl held ↦ rw held tt
  | inr free ↦ rw free h
]

pub read_clock-agree : (elapsed : Bool) (k : Kernel) → Agrees k (read_clock elapsed k)
unfolding read_clock
read_clock-agree elapsed k = choose k.flag_out_of_running elapsed
  where
    choose :
        (out over : Bool)
        → Agrees k (
            if out
            then record k { flag_out_of_running = false; quantum = resting }
            else if over
            then record k {
              sem_interruption_quantum = suc k.sem_interruption_quantum;
              quantum = waiting;
            }
            else k)
    choose true over = agree_self k
    choose false true = agree_self k
    choose false false = agree_self k

quantum-keeps :
    (q : QuantumThread) (elapsed : Bool) (k : Kernel)
    → IsConsistent k
    → Then IsConsistent (quantum_step q elapsed k)
quantum-keeps resting elapsed k w = elim (Bool-cases (k.sem_beggin_quantum == 0)) [
  | inl waits ↦ rw waits tt
  | inr free ↦ rw free (agree k _ (agree_self k) w)
]
quantum-keeps counting elapsed k w = agree k (read_clock elapsed k) (read_clock-agree elapsed k) w
quantum-keeps waiting elapsed k w = elim (Bool-cases (k.sem_interruption_quantum_finish == 0)) [
  | inl waits ↦ rw waits tt
  | inr free ↦ rw free (agree k _ (agree_self k) w)
]

module _ (same : Text → Text → Bool) (c : KernelConfig) (sequential : IsSequential same c) where
  requeue-IsConsistent :
      (pcb : Pcb) (k : Kernel) → IsConsistent k → IsConsistent (requeue same c pcb k)
  requeue-IsConsistent pcb k w =
      rw sequential.no_feedback (elim (Bool-cases (same c.algoritmo_planificacion (codes "RR"))) [
        | inl rr ↦ rw rr (record {
          ready = omega (arith, w.ready, length-snoc k.list_ready _);
          starting = w.starting;
          alone = w.alone;
        })
        | inr other ↦ rw other w
      ])

  resolve-keeps : (k : Kernel) → IsConsistent k → Then IsConsistent (resolve_page_fault same c k)
  unfolding resolve_page_fault
  resolve-keeps k w = elim (Bool-cases k.resolving) [
    | inl locked ↦ rw locked tt
    | inr free ↦ elim (faults-cases k.faults) [
      | inl empty ↦ rw (free, empty) tt
      | inr (first, rest, e) ↦
          rw (free, e) (record { ready = w.ready; starting = w.starting; alone = w.alone })
    ]
  ]

  resolved-keeps :
      (pcb : Pcb) (k : Kernel)
      → IsConsistent k
      → Then IsConsistent (page_fault_resolved same c pcb k)
  unfolding page_fault_resolved
  resolved-keeps pcb k w = rw sequential.no_feedback (record {
    ready = omega (arith, w.ready, length-snoc k.list_ready _);
    starting = w.starting;
    alone = w.alone;
  })

  clock-keeps :
      (elapsed : Bool) (k : Kernel)
      → IsConsistent k
      → Then IsConsistent (count_quantum_of_round_robin elapsed k)
  unfolding count_quantum_of_round_robin
  clock-keeps elapsed k w = quantum-keeps k.quantum elapsed k w

  interrupt-keeps : (k : Kernel) → IsConsistent k → Then IsConsistent (manage_interrupt k)
  unfolding manage_interrupt
  interrupt-keeps k w = elim (Bool-cases (k.sem_interruption_quantum == 0)) [
    | inl waits ↦ rw waits tt
    | inr free ↦ elim (list-cases k.list_running) [
      | inl empty ↦
          rw (free, empty) (record { ready = w.ready; starting = w.starting; alone = w.alone })
      | inr (pcb, rest, e) ↦
          rw (free, e) (record { ready = w.ready; starting = w.starting; alone = w.alone })
    ]
  ]

  io_default-keeps :
      (pcb : Pcb) (device : Text) (parameter : ℤ) (k : Kernel)
      → IsConsistent k
      → Then IsConsistent
          (outcome (execute_io_default pcb device parameter k >>= λ k'. some (k', [])))
  unfolding execute_io_default
  io_default-keeps pcb device parameter k w =
      elim (Option-cases (dictionary_get k.dictionary_io device)) [
        | inl unknown ↦ rw unknown tt
        | inr (found, e) ↦ rw e (agree k _ (agree_self k) w)
      ]

  dispatch-keeps :
      (message : DispatchMessage) (k : Kernel)
      → IsConsistent k
      → Then IsConsistent (manage_dispatch same c message k)
  unfolding manage_dispatch
  dispatch-keeps (io_console pcb device parameter) k w =
      Then-with_mutex IsConsistent k _
        (Then-mark_out IsConsistent (free_cpu k) _ (λ k' a. agree k k' a w))
  dispatch-keeps (io_default pcb device parameter) k w = Then-with_mutex IsConsistent k _ (
      Then-mark_out IsConsistent (free_cpu k) _
        (λ k' a. io_default-keeps _ device parameter _ (agree k _ a w)))
  dispatch-keeps (execute_interruption pcb) k w =
      requeue-IsConsistent pcb _ (agree k _ (agree_self k) w)
  dispatch-keeps (seg_fault pcb) k w =
      Then-with_mutex IsConsistent k _
        (Then-mark_out IsConsistent (free_cpu k) _ (λ k' a. agree k _ a w))
  dispatch-keeps (page_fault pcb segment page) k w = agree k _ (agree_self k) w
  dispatch-keeps (end_process pcb) k w =
      Then-with_mutex IsConsistent k _
        (Then-mark_out IsConsistent (free_cpu k) _ (λ k' a. agree k _ a w))

  serve-keeps :
      (name : Text) (k : Kernel) (waiting : List (ℤ × Pcb)) (device : Device)
      → IsConsistent k
      → Then IsConsistent (serve same c name k waiting device)
  serve-keeps name k [] device w = tt
  serve-keeps name k ((time, pcb) ∷ rest) device w =
      post-IsConsistent same c sequential pcb _ (agree k _ (agree_self k) w)

  simulate-keeps :
      (name : Text) (k : Kernel) (found : Option Device)
      → IsConsistent k
      → Then IsConsistent (simulate_device same c name k found)
  simulate-keeps name k none w = tt
  simulate-keeps name k (some device) w = elim (Bool-cases (device.sem_devices == 0)) [
    | inl waits ↦ rw waits tt
    | inr free ↦ rw free (serve-keeps name k device.list_processes device w)
  ]

  device-keeps :
      (name : Text) (k : Kernel)
      → IsConsistent k
      → Then IsConsistent (simulate_io_default same c name k)
  unfolding simulate_io_default
  device-keeps name k w = simulate-keeps name k (dictionary_get k.dictionary_io name) w

  -- Every step of every thread, taken whole, keeps the counts right under FIFO and RR: the semaphore of
  -- ready processes, with the post that the short term scheduler holds while it waits for the CPU, is the
  -- length of READY, and NEW holds a process for each thread that is about to take one.
  pub step-keeps : (e : Event) (k : Kernel) → IsConsistent k → Then IsConsistent (step same c e k)
  unfolding step
  step-keeps (console_init socket instructions segments) k w =
      init_process-keeps same c sequential socket instructions segments k w
  step-keeps (console_io pcb) k w = io_response-keeps same c sequential pcb k w
  step-keeps take_turn k w = take_turn-keeps same c sequential k w
  step-keeps begin_ready k w = begin-keeps same c sequential k w
  step-keeps (memory_init pcb) k w = memory_init-keeps same c sequential pcb k w
  step-keeps finish_ready k w = finish-keeps same c sequential k w
  step-keeps take_ready k w = take_ready-keeps same c sequential k w
  step-keeps schedule k w = schedule-keeps same c sequential k w
  step-keeps (cpu message) k w = dispatch-keeps message k w
  step-keeps fault_thread k w = resolve-keeps k w
  step-keeps (memory_fault pcb) k w = resolved-keeps pcb k w
  step-keeps (serve_device name) k w = device-keeps name k w
  step-keeps (clock elapsed) k w = clock-keeps elapsed k w
  step-keeps interrupt k w = interrupt-keeps k w
