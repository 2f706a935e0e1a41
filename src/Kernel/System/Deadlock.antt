-- ===== src/Kernel/System/Deadlock.antt =====
-- The wait of the quantum's thread in kernel/src/kernel.c for an interrupt that is not sent.
use geck.Prelude.{
  ℕ, ◌-◌, ◌==◌, ℤ, List, [], ◌∷◌, Bool, false, not, ◌||◌, Bool-cases, Option, none, some, ◌≡◌, inl,
  inr, refl, ap, ◌∙◌, subst, arith,
}
use geck.Shared.Strings.{Text, codes, strcmp_eq}
use geck.Shared.{Pcb}
use geck.Kernel.{KernelConfig, Device, Kernel, waiting, Message, blocked, done, outcome}
use geck.Kernel.Ready.{
  is_feedback, make_ready, place_initialized, dispatch_next, init_process, io_response,
  take_schedule_ready, take_process_in_ready, begin_next_to_ready, memory_initialized,
  finish_next_to_ready, schedule_next_to_running,
}
use geck.Kernel.Dispatch.{
  DispatchMessage, io_console, io_default, execute_interruption, seg_fault, page_fault, end_process,
  requeue, manage_dispatch, resolve_page_fault, page_fault_resolved,
}
use geck.Kernel.Devices.{dictionary_get, serve, simulate_device, simulate_io_default}
use geck.Kernel.Quantum.{count_quantum_of_round_robin, answer, manage_interrupt}
use geck.Kernel.System.{
  Event, console_init, console_io, begin_ready, memory_init, finish_ready, schedule, cpu,
  fault_thread, memory_fault, serve_device, clock, interrupt, take_turn, take_ready, step,
}
use geck.Kernel.System.Keeps.{Then, list-cases}
use geck.Kernel.System.Steps.{faults-cases}

-- The quantum's thread waits, with the mutex locked, and nothing has been posted for it or for the thread
-- that would answer it.
pub record IsStuck (k : Kernel) : Type 0 where
  pub waits : k.quantum ≡ waiting
  pub unanswered : k.sem_interruption_quantum_finish ≡ 0
  pub unheard : k.sem_interruption_quantum ≡ 0

-- A state with the same quantum.
still :
    (k k' : Kernel)
    → IsStuck k
    → k'.quantum ≡ k.quantum
    → k'.sem_interruption_quantum_finish ≡ k.sem_interruption_quantum_finish
    → k'.sem_interruption_quantum ≡ k.sem_interruption_quantum
    → IsStuck k'
still k k' w q f i = record {
  waits = rw q w.waits;
  unanswered = rw f w.unanswered;
  unheard = rw i w.unheard;
}

module _ (same : Text → Text → Bool) (c : KernelConfig) where
  make_ready-IsStuck : (pcb : Pcb) (k : Kernel) → IsStuck k → IsStuck (make_ready same c pcb k)
  make_ready-IsStuck pcb k w = elim (Bool-cases (is_feedback same c)) [
    | inl yes_rr ↦ rw yes_rr (still k _ w refl refl refl)
    | inr plain ↦ rw plain (still k _ w refl refl refl)
  ]

  place-IsStuck : (pcb : Pcb) (k : Kernel) → IsStuck k → IsStuck (place_initialized same c pcb k)
  place-IsStuck pcb k w = elim (Bool-cases (is_feedback same c)) [
    | inl yes_rr ↦ rw yes_rr (still k _ w refl refl refl)
    | inr plain ↦
        elim (Bool-cases (
          same c.algoritmo_planificacion (codes "FIFO")
          || same c.algoritmo_planificacion (codes "RR"))) [
            | inl known ↦ rw (plain, known) (still k _ w refl refl refl)
            | inr unknown ↦ rw (plain, unknown) w
          ]
  ]

  requeue-IsStuck : (pcb : Pcb) (k : Kernel) → IsStuck k → IsStuck (requeue same c pcb k)
  requeue-IsStuck pcb k w = elim (Bool-cases (same c.algoritmo_planificacion (codes "RR"))) [
    | inl rr ↦ rw rr (still k _ w refl refl refl)
    | inr other ↦ elim (Bool-cases (is_feedback same c)) [
      | inl feedback ↦ rw (other, feedback) (still k _ w refl refl refl)
      | inr plain ↦ rw (other, plain) w
    ]
  ]

  turn-IsStuck : (k : Kernel) → IsStuck k → Then IsStuck (take_schedule_ready same c k)
  unfolding take_schedule_ready
  turn-IsStuck k w = elim (Bool-cases (k.starting == 0 || k.sem_schedule_ready == 0)) [
    | inl waits ↦ rw waits tt
    | inr free ↦ rw free (still k _ w refl refl refl)
  ]

  take-IsStuck : (k : Kernel) → IsStuck k → Then IsStuck (take_process_in_ready same c k)
  unfolding take_process_in_ready
  take-IsStuck k w = elim (Bool-cases (k.scheduling || k.sem_process_in_ready == 0)) [
    | inl waits ↦ rw waits tt
    | inr free ↦ rw free (still k _ w refl refl refl)
  ]

  begin-IsStuck : (k : Kernel) → IsStuck k → Then IsStuck (begin_next_to_ready same c k)
  unfolding begin_next_to_ready
  begin-IsStuck k w = elim (Bool-cases (not k.entering || k.sem_grado_multiprogamacion == 0)) [
    | inl waits ↦ rw waits tt
    | inr free ↦ elim (list-cases k.list_new) [
      | inl empty ↦ rw (free, empty) (still k _ w refl refl refl)
      | inr (pcb, rest, e) ↦ rw (free, e) (still k _ w refl refl refl)
    ]
  ]

  finish-IsStuck : (k : Kernel) → IsStuck k → Then IsStuck (finish_next_to_ready same c k)
  unfolding finish_next_to_ready
  finish-IsStuck k w = elim (Bool-cases (not k.initializing || k.sem_init_process_memory == 0)) [
    | inl waits ↦ rw waits tt
    | inr free ↦ elim (list-cases k.list_new) [
      | inl empty ↦ rw (free, empty) tt
      | inr (pcb, rest, e) ↦ rw (free, e) (place-IsStuck pcb _ (still k _ w refl refl refl))
    ]
  ]

  -- What `dispatch_next` chooses from lists of ready processes.
  dispatch-IsStuck : (k : Kernel) → IsStuck k → Then IsStuck (outcome (dispatch_next same c k))
  unfolding dispatch_next
  dispatch-IsStuck k w = elim (Bool-cases (strcmp_eq c.algoritmo_planificacion (codes "FIFO"))) [
    | inl fifo ↦ elim (list-cases k.list_ready) [
      | inl empty ↦ rw (fifo, empty) tt
      | inr (pcb, rest, e) ↦ rw (fifo, e) (still k _ w refl refl refl)
    ]
    | inr no_fifo ↦ elim (Bool-cases (strcmp_eq c.algoritmo_planificacion (codes "RR"))) [
      | inl rr ↦ elim (list-cases k.list_ready) [
        | inl empty ↦ rw (no_fifo, rr, empty) tt
        | inr (pcb, rest, e) ↦ rw (no_fifo, rr, e) (still k _ w refl refl refl)
      ]
      | inr no_rr ↦ elim (Bool-cases (is_feedback same c)) [
        | inr unknown ↦ rw (no_fifo, no_rr, unknown) w
        | inl feedback ↦ elim (list-cases k.list_ready_rr) [
          | inr (pcb, rest, e) ↦ rw (no_fifo, no_rr, feedback, e) (still k _ w refl refl refl)
          | inl empty ↦ elim (list-cases k.list_ready_fifo) [
            | inr (pcb, rest, e) ↦
                rw (no_fifo, no_rr, feedback, empty, e) (still k _ w refl refl refl)
            | inl none_left ↦
                rw (no_fifo, no_rr, feedback, empty, none_left) (still k _ w refl refl refl)
          ]
        ]
      ]
    ]
  ]

  schedule-IsStuck : (k : Kernel) → IsStuck k → Then IsStuck (schedule_next_to_running same c k)
  unfolding schedule_next_to_running
  schedule-IsStuck k w = elim (Bool-cases (not k.scheduling || k.sem_cpu_free_to_execute == 0)) [
    | inl waits ↦ rw waits tt
    | inr free ↦ rw free (dispatch-IsStuck _ (still k _ w refl refl refl))
  ]

  -- What takes the mutex waits.
  message-IsStuck :
      (message : DispatchMessage) (k : Kernel)
      → IsStuck k
      → Then IsStuck (manage_dispatch same c message k)
  unfolding manage_dispatch
  message-IsStuck (io_console pcb device parameter) k w = rw w.waits tt
  message-IsStuck (io_default pcb device parameter) k w = rw w.waits tt
  message-IsStuck (execute_interruption pcb) k w =
      requeue-IsStuck pcb _ (still k _ w refl refl refl)
  message-IsStuck (seg_fault pcb) k w = rw w.waits tt
  message-IsStuck (page_fault pcb segment page) k w = still k _ w refl refl refl
  message-IsStuck (end_process pcb) k w = rw w.waits tt

  fault_thread-IsStuck : (k : Kernel) → IsStuck k → Then IsStuck (resolve_page_fault same c k)
  unfolding resolve_page_fault
  fault_thread-IsStuck k w = elim (Bool-cases k.resolving) [
    | inl locked ↦ rw locked tt
    | inr free ↦ elim (faults-cases k.faults) [
      | inl empty ↦ rw (free, empty) tt
      | inr (first, rest, e) ↦ rw (free, e) (still k _ w refl refl refl)
    ]
  ]

  resolved-IsStuck :
      (pcb : Pcb) (k : Kernel) → IsStuck k → Then IsStuck (page_fault_resolved same c pcb k)
  unfolding page_fault_resolved
  resolved-IsStuck pcb k w = elim (Bool-cases (is_feedback same c)) [
    | inl feedback ↦ rw feedback (still k _ w refl refl refl)
    | inr plain ↦ rw plain (still k _ w refl refl refl)
  ]

  serve-IsStuck :
      (name : Text) (k : Kernel) (processes : List (ℤ × Pcb)) (device : Device)
      → IsStuck k
      → Then IsStuck (serve same c name k processes device)
  serve-IsStuck name k [] device w = tt
  serve-IsStuck name k ((time, pcb) ∷ rest) device w =
      let made = make_ready-IsStuck pcb _ (still k _ w refl refl refl) in
      still _ _ made refl refl refl

  device-IsStuck :
      (name : Text) (k : Kernel) (found : Option Device)
      → IsStuck k
      → Then IsStuck (simulate_device same c name k found)
  device-IsStuck name k none w = tt
  device-IsStuck name k (some device) w = elim (Bool-cases (device.sem_devices == 0)) [
    | inl waits ↦ rw waits tt
    | inr free ↦ rw free (serve-IsStuck name k device.list_processes device w)
  ]

  step-IsStuck : (e : Event) (k : Kernel) → IsStuck k → Then IsStuck (step same c e k)
  unfolding step init_process io_response memory_initialized simulate_io_default
      count_quantum_of_round_robin manage_interrupt
  step-IsStuck (console_init socket instructions segments) k w = still k _ w refl refl refl
  step-IsStuck (console_io pcb) k w = still _ _ (make_ready-IsStuck pcb k w) refl refl refl
  step-IsStuck take_turn k w = turn-IsStuck k w
  step-IsStuck begin_ready k w = begin-IsStuck k w
  step-IsStuck (memory_init pcb) k w = still k _ w refl refl refl
  step-IsStuck finish_ready k w = finish-IsStuck k w
  step-IsStuck take_ready k w = take-IsStuck k w
  step-IsStuck schedule k w = schedule-IsStuck k w
  step-IsStuck (cpu message) k w = message-IsStuck message k w
  step-IsStuck fault_thread k w = fault_thread-IsStuck k w
  step-IsStuck (memory_fault pcb) k w = resolved-IsStuck pcb k w
  step-IsStuck (serve_device name) k w =
      device-IsStuck name k (dictionary_get k.dictionary_io name) w
  step-IsStuck (clock elapsed) k w = rw (w.waits, w.unanswered) tt
  step-IsStuck interrupt k w = rw w.unheard tt

  -- The states that are reached from one.
  pub data Later (k : Kernel) : Kernel → Type 0 where
    now : Later k k
    after :
        (k' k'' : Kernel) (e : Event) (sent : List Message)
        → Later k k'
        → step same c e k' ≡ done k'' sent
        → Later k k''

  Later-IsStuck : (k k' : Kernel) → IsStuck k → Later k k' → IsStuck k'
  Later-IsStuck k _ w now = w
  Later-IsStuck k _ w (after k' k'' e sent before taken) =
      subst (Then IsStuck) taken (step-IsStuck e k' (Later-IsStuck k k' w before))

-- When the quantum's thread waits, RUNNING is empty and no answer is left, the interrupt's thread takes the
-- post and sends and posts nothing. From then on, in every state that any steps of the threads reach, the
-- end of a process is not handled and the quantum's thread waits.
pub manage_interrupt-deadlock :
    (same : Text → Text → Bool) (c : KernelConfig) (k later : Kernel) (pcb : Pcb) (elapsed : Bool)
    → k.quantum ≡ waiting
    → k.sem_interruption_quantum ≡ 1
    → k.sem_interruption_quantum_finish ≡ 0
    → k.list_running ≡ []
    → Later same c (record k { sem_interruption_quantum = 0 }) later
    → (manage_interrupt k ≡ done (record k { sem_interruption_quantum = 0 }) [])
      × (manage_dispatch same c (end_process pcb) later ≡ blocked)
      × (count_quantum_of_round_robin elapsed later ≡ blocked)
unfolding manage_interrupt manage_dispatch count_quantum_of_round_robin
manage_interrupt-deadlock same c k later pcb elapsed waits posted unanswered idle reached =
    let stuck : IsStuck (record k { sem_interruption_quantum = 0 }) = record {
      waits = waits;
      unanswered = unanswered;
      unheard = refl;
    } in
    let w = Later-IsStuck same c _ later stuck reached in
    let posts : (k.sem_interruption_quantum == 0) ≡ false = ground arith in
    let taken : k.sem_interruption_quantum - 1 ≡ 0 = omega arith in
    (
      rw posts (
          ap
            (λ r. answer r (record k { sem_interruption_quantum = k.sem_interruption_quantum - 1 }))
            idle
          ∙ ap (λ (n : ℕ). done (record k { sem_interruption_quantum = n }) []) taken),
      rw w.waits refl,
      rw (w.waits, w.unanswered) refl,
    )
