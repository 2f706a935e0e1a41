-- ===== src/Kernel/Ready.antt =====
-- Long and short term scheduling of kernel/src/kernel.c: from the console to NEW, from NEW to READY
-- with the memory's help, and from READY to RUNNING. `same` is `string_equals_ignore_case`.
use geck.Prelude.{
  add_int, suc, ◌-◌, ◌==◌, ℤ, pos, List, [], ◌∷◌, Bool, true, false, not, ◌||◌, Option, some,
  if◌then◌else◌, ◌>>=◌,
}
use geck.Shared.Strings.{Text, codes, strcmp_eq}
use geck.Shared.{Pcb, PcbStatus, pcb_create, change_pcb_state_to}
use geck.Kernel.{
  KernelConfig, Kernel, Message, Outcome, blocked, done, outcome, execute_pcb, init_structures,
  q_new, q_ready, q_ready_rr, q_running, schedule_next_to, first_of,
}

module _ (same : Text → Text → Bool) (c : KernelConfig) where
  abbrev pub is_feedback : Bool
  is_feedback = same c.algoritmo_planificacion (codes "FEEDBACK")

  -- A process becomes ready again with priority: the RR list under FEEDBACK.
  abbrev pub make_ready : Pcb → Kernel → Kernel
  make_ready pcb k =
      if is_feedback
      then schedule_next_to pcb PcbStatus.ready q_ready_rr k
      else schedule_next_to pcb PcbStatus.ready q_ready k

  abbrev pub post_ready : Kernel → Kernel
  post_ready k = record k { sem_process_in_ready = suc k.sem_process_in_ready }

  -- INIT_PROCESS: the console's thread goes on to wait for `sem_schedule_ready`.
  unfoldable pub init_process : ℤ → List Text → List Text → Kernel → Outcome
  init_process client_socket instructions segments k =
      let pcb = pcb_create instructions client_socket k.pid_counter segments in
      let k₁ = schedule_next_to pcb PcbStatus.new q_new k in
      done (record k₁ { pid_counter = add_int k.pid_counter (pos 1); starting = suc k.starting }) []

  -- IO_SCREEN_RESPONSE and IO_KEYBOARD_RESPONSE.
  unfoldable pub io_response : Pcb → Kernel → Outcome
  io_response pcb k = done (post_ready (make_ready pcb k)) []

  -- The wait for `sem_schedule_ready` in `receive_console`.
  unfoldable pub take_schedule_ready : Kernel → Outcome
  take_schedule_ready k =
      if k.starting == 0 || k.sem_schedule_ready == 0
      then blocked
      else done
          (record k {
            starting = k.starting - 1;
            sem_schedule_ready = k.sem_schedule_ready - 1;
            entering = true;
          })
          []

  -- `schedule_next_to_ready` up to the wait for the memory. With no process in NEW it returns, and its
  -- caller posts `sem_schedule_ready`.
  unfoldable pub begin_next_to_ready : Kernel → Outcome
  begin_next_to_ready k =
      if not k.entering || k.sem_grado_multiprogamacion == 0 then blocked else elim k.list_new [
        | [] ↦
            done
              (record k {
                entering = false;
                sem_schedule_ready = suc k.sem_schedule_ready;
                sem_grado_multiprogamacion = k.sem_grado_multiprogamacion - 1;
              })
              []
        | ◌∷◌ pcb rest ↦
            done
              (record k {
                entering = false;
                sem_grado_multiprogamacion = k.sem_grado_multiprogamacion - 1;
                initializing = true;
              })
              (init_structures pcb ∷ [])
      ]

  -- INIT_PROCESS_STRUCTURES_MEMORY_RESPONSE: `list_replace` of the first of an empty list changes nothing.
  unfoldable pub memory_initialized : Pcb → Kernel → Outcome
  memory_initialized pcb k =
      done
        (record k {
          list_new = elim k.list_new [ [] ↦ [] | ◌∷◌ first rest ↦ pcb ∷ rest ];
          sem_init_process_memory = suc k.sem_init_process_memory;
        })
        []

  -- Where an initialized process goes; under any other name of an algorithm, nowhere.
  abbrev pub place_initialized : Pcb → Kernel → Kernel
  place_initialized pcb k =
      if is_feedback
      then post_ready (schedule_next_to pcb PcbStatus.ready q_ready_rr k)
      else if same c.algoritmo_planificacion (codes "FIFO")
          || same c.algoritmo_planificacion (codes "RR")
      then post_ready (schedule_next_to pcb PcbStatus.ready q_ready k)
      else k

  -- The rest of `schedule_next_to_ready`.
  unfoldable pub finish_next_to_ready : Kernel → Outcome
  finish_next_to_ready k =
      if not k.initializing || k.sem_init_process_memory == 0
      then blocked
      else outcome (
          first_of k.list_new >>= λ r. some (
            place_initialized r.0 (record k {
              list_new = r.1;
              sem_init_process_memory = k.sem_init_process_memory - 1;
              initializing = false;
              sem_schedule_ready = suc k.sem_schedule_ready;
            }),
            [],
          ))

  -- The chosen process runs, and the quantum starts when it is under RR.
  abbrev pub run : Pcb → Bool → Text → Kernel → Kernel × List Message
  run pcb timed last k =
      let k₁ = schedule_next_to pcb PcbStatus.running q_running k in
      (
        record k₁ {
          ultimo = some last;
          sem_beggin_quantum = if timed then suc k.sem_beggin_quantum else k.sem_beggin_quantum;
        },
        execute_pcb (change_pcb_state_to pcb PcbStatus.running) ∷ [],
      )

  unfoldable pub dispatch_next : Kernel → Option (Kernel × List Message)
  dispatch_next k =
      if strcmp_eq c.algoritmo_planificacion (codes "FIFO")
      then (first_of k.list_ready >>= λ r.
          some (run r.0 false (codes "FIFO") (record k { list_ready = r.1 })))
      else if strcmp_eq c.algoritmo_planificacion (codes "RR")
      then (first_of k.list_ready >>= λ r.
          some (run r.0 true (codes "RR") (record k { list_ready = r.1 })))
      else if is_feedback
      then elim k.list_ready_rr [
        | ◌∷◌ pcb rest ↦ some (run pcb true (codes "RR") (record k { list_ready_rr = rest }))
        | [] ↦ elim k.list_ready_fifo [
          | ◌∷◌ pcb rest ↦ some (run pcb false (codes "FIFO") (record k { list_ready_fifo = rest }))
          | [] ↦ some (k, [])
        ]
      ]
      else some (k, [])

  -- The first wait of a round of `schedule_next_to_running`.
  unfoldable pub take_process_in_ready : Kernel → Outcome
  take_process_in_ready k =
      if k.scheduling || k.sem_process_in_ready == 0
      then blocked
      else done (record k { sem_process_in_ready = k.sem_process_in_ready - 1; scheduling = true })
          []

  -- The rest of the round: the wait for the CPU, and what is done with it.
  unfoldable pub schedule_next_to_running : Kernel → Outcome
  schedule_next_to_running k =
      if not k.scheduling || k.sem_cpu_free_to_execute == 0
      then blocked
      else outcome (
          dispatch_next (record k {
            scheduling = false;
            sem_cpu_free_to_execute = k.sem_cpu_free_to_execute - 1;
          }))
