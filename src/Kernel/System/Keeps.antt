-- ===== src/Kernel/System/Keeps.antt =====
-- What every step of kernel/src/kernel.c keeps under FIFO and RR: the semaphores count the lists.
use geck.Prelude.{
  ℕ, suc, ◌+◌, ◌==◌, ℤ, List, [], ◌∷◌, ◌++◌, length, length-append, Bool, true, false, not, ◌||◌,
  Bool-cases, if◌then◌else◌, ◌≡◌, ◌⊎◌, inl, inr, refl, ap, arith,
}
use geck.Shared.Strings.{Text, codes, strcmp_eq}
use geck.Shared.{Pcb}
use geck.Kernel.{KernelConfig, Kernel, Outcome, blocked, fault, done}
use geck.Kernel.Ready.{
  make_ready, post_ready, place_initialized, dispatch_next, init_process, io_response,
  take_schedule_ready, take_process_in_ready, begin_next_to_ready, memory_initialized,
  finish_next_to_ready, schedule_next_to_running,
}

-- The algorithm is FIFO or RR, and `same` tells it from FEEDBACK.
pub record IsSequential (same : Text → Text → Bool) (c : KernelConfig) : Type 0 where
  pub plain : (c.algoritmo_planificacion ≡ codes "FIFO") ⊎ (c.algoritmo_planificacion ≡ codes "RR")
  pub no_feedback : same c.algoritmo_planificacion (codes "FEEDBACK") ≡ false
  pub named :
      (same c.algoritmo_planificacion (codes "FIFO") || same c.algoritmo_planificacion (codes "RR"))
      ≡ true

abbrev pub count : Bool → ℕ
count b = if b then 1 else 0

-- The semaphore of ready processes, and the post that the short term scheduler may hold, count READY; NEW
-- holds one process for each thread in front of `schedule_next_to_ready` and in it, where at most one
-- is.
pub record IsConsistent (k : Kernel) : Type 0 where
  pub ready : k.sem_process_in_ready + count k.scheduling ≡ length k.list_ready
  pub starting : k.starting + (count k.entering + count k.initializing) ≡ length k.list_new
  pub alone : k.sem_schedule_ready + (count k.entering + count k.initializing) ≡ 1

-- The state after a step that is done; a blocked step leaves the state as it was.
abbrev pub Then : (Kernel → Type 0) → Outcome → Type 0
Then P blocked = Unit {0}
Then P fault = Unit {0}
Then P (done k sent) = P k

pub list-cases :
    (pcbs : List Pcb) → (pcbs ≡ []) ⊎ ((pcb : Pcb) × (rest : List Pcb) × (pcbs ≡ pcb ∷ rest))
list-cases [] = inl refl
list-cases (pcb ∷ rest) = inr (pcb, rest, refl)

pub length-snoc : (pcbs : List Pcb) (pcb : Pcb) → length (pcbs ++ pcb ∷ []) ≡ suc (length pcbs)
length-snoc pcbs pcb = omega (arith, length-append pcbs (pcb ∷ []))

-- A state with the same lists of ready and new processes, and the same semaphores over them.
abbrev pub Agrees : Kernel → Kernel → Type 0
Agrees k k' =
    (k'.sem_process_in_ready ≡ k.sem_process_in_ready)
    × (k'.scheduling ≡ k.scheduling)
    × (k'.list_ready ≡ k.list_ready)
    × (k'.starting ≡ k.starting)
    × (k'.entering ≡ k.entering)
    × (k'.initializing ≡ k.initializing)
    × (k'.list_new ≡ k.list_new)
    × (k'.sem_schedule_ready ≡ k.sem_schedule_ready)
    × (k'.list_ready_rr ≡ k.list_ready_rr)
    × (k'.list_ready_fifo ≡ k.list_ready_fifo)

pub agree_self : (k : Kernel) → Agrees k k
agree_self k = (refl, refl, refl, refl, refl, refl, refl, refl, refl, refl)

pub agree : (k k' : Kernel) → Agrees k k' → IsConsistent k → IsConsistent k'
agree k k' (in_ready, held, ready, starting, entering, initializing, new, schedule, rr, queue) w =
    record {
      ready = rw (in_ready, held, ready) w.ready;
      starting = rw (starting, entering, initializing, new) w.starting;
      alone = rw (schedule, entering, initializing) w.alone;
    }

module _ (same : Text → Text → Bool) (c : KernelConfig) (sequential : IsSequential same c) where
  pub post-IsConsistent :
      (pcb : Pcb) (k : Kernel)
      → IsConsistent k
      → IsConsistent (post_ready same c (make_ready same c pcb k))
  post-IsConsistent pcb k w = rw sequential.no_feedback (record {
    ready =
        omega (arith, w.ready, length-append k.list_ready (pcb ∷ []), length-snoc k.list_ready _);
    starting = w.starting;
    alone = w.alone;
  })

  pub init_process-keeps :
      (socket : ℤ) (instructions segments : List Text) (k : Kernel)
      → IsConsistent k
      → Then IsConsistent (init_process same c socket instructions segments k)
  unfolding init_process
  init_process-keeps socket instructions segments k w = record {
    ready = w.ready;
    starting = omega (arith, w.starting, length-snoc k.list_new _);
    alone = w.alone;
  }

  pub io_response-keeps :
      (pcb : Pcb) (k : Kernel) → IsConsistent k → Then IsConsistent (io_response same c pcb k)
  unfolding io_response
  io_response-keeps pcb k w = post-IsConsistent pcb k w

  pub take_turn-keeps :
      (k : Kernel) → IsConsistent k → Then IsConsistent (take_schedule_ready same c k)
  unfolding take_schedule_ready
  take_turn-keeps k w = elim (Bool-cases (k.starting == 0 || k.sem_schedule_ready == 0)) [
    | inl waits ↦ rw waits tt
    | inr free ↦ rw free (record {
      ready = w.ready;
      starting = ground (arith, w.starting, w.alone, free);
      alone = ground (arith, w.alone, free);
    })
  ]

  pub take_ready-keeps :
      (k : Kernel) → IsConsistent k → Then IsConsistent (take_process_in_ready same c k)
  unfolding take_process_in_ready
  take_ready-keeps k w = elim (Bool-cases (k.scheduling || k.sem_process_in_ready == 0)) [
    | inl waits ↦ rw waits tt
    | inr free ↦
        rw free
          (record { ready = ground (arith, w.ready, free); starting = w.starting; alone = w.alone })
  ]

  pub begin-keeps : (k : Kernel) → IsConsistent k → Then IsConsistent (begin_next_to_ready same c k)
  unfolding begin_next_to_ready
  begin-keeps k w = elim (Bool-cases (not k.entering || k.sem_grado_multiprogamacion == 0)) [
    | inl waits ↦ rw waits tt
    | inr free ↦ elim (list-cases k.list_new) [
      | inl empty ↦ absurd (ground (arith, w.starting, ap length empty, free))
      | inr (pcb, rest, e) ↦
          rw (free, e)
            (record {
              ready = w.ready;
              starting = ground (arith, w.starting, w.alone, free);
              alone = ground (arith, w.alone, free);
            })
    ]
  ]

  pub memory_init-keeps :
      (pcb : Pcb) (k : Kernel)
      → IsConsistent k
      → Then IsConsistent (memory_initialized same c pcb k)
  unfolding memory_initialized
  memory_init-keeps pcb k w = elim (list-cases k.list_new) [
    | inl empty ↦ rw empty (record {
      ready = w.ready;
      starting = omega (arith, w.starting, ap length empty);
      alone = w.alone;
    })
    | inr (first, rest, e) ↦ rw e (record {
      ready = w.ready;
      starting = omega (arith, w.starting, ap length e);
      alone = w.alone;
    })
  ]

  place-IsConsistent :
      (pcb : Pcb) (k : Kernel) → IsConsistent k → IsConsistent (place_initialized same c pcb k)
  place-IsConsistent pcb k w =
      rw (sequential.no_feedback, sequential.named)
        (record {
          ready = omega (arith, w.ready, length-snoc k.list_ready _);
          starting = w.starting;
          alone = w.alone;
        })

  pub finish-keeps :
      (k : Kernel) → IsConsistent k → Then IsConsistent (finish_next_to_ready same c k)
  unfolding finish_next_to_ready
  finish-keeps k w = elim (Bool-cases (not k.initializing || k.sem_init_process_memory == 0)) [
    | inl waits ↦ rw waits tt
    | inr free ↦ elim (list-cases k.list_new) [
      | inl empty ↦ rw (free, empty) tt
      | inr (pcb, rest, e) ↦
          rw (free, e)
            (place-IsConsistent pcb _ (record {
              ready = w.ready;
              starting = ground (arith, w.starting, ap length e, free);
              alone = ground (arith, w.alone, free);
            }))
    ]
  ]

  -- A process leaves READY for RUNNING: the semaphore was taken.
  pub schedule-keeps :
      (k : Kernel) → IsConsistent k → Then IsConsistent (schedule_next_to_running same c k)
  unfolding schedule_next_to_running dispatch_next strcmp_eq
  schedule-keeps k w = elim (Bool-cases (not k.scheduling || k.sem_cpu_free_to_execute == 0)) [
    | inl waits ↦ rw waits tt
    | inr free ↦ elim (list-cases k.list_ready) [
      | inl empty ↦ absurd (ground (arith, w.ready, ap length empty, free))
      | inr (pcb, rest, e) ↦ elim sequential.plain [
        | inl fifo ↦
            rw (free, fifo, e)
              (record {
                ready = ground (arith, w.ready, ap length e, free);
                starting = w.starting;
                alone = w.alone;
              })
        | inr rr ↦
            rw (free, rr, e)
              (record {
                ready = ground (arith, w.ready, ap length e, free);
                starting = w.starting;
                alone = w.alone;
              })
      ]
    ]
  ]
