-- ===== src/Kernel/Dispatch.antt =====
-- What kernel/src/kernel.c does with the messages of the CPU (`manage_dispatch`) and of the memory
-- (`manage_memory`, `resolve_page_fault`).
use geck.Prelude.{suc, ℤ, [], ◌∷◌, ◌++◌, Bool, true, false, Option, some, if◌then◌else◌, ◌>>=◌}
use geck.Shared.Strings.{Text, codes, strcmp_eq}
use geck.Shared.{Pcb, PcbStatus, change_pcb_state_to}
use geck.Kernel.{
  KernelConfig, Kernel, waiting, QuantumThread, request_page_fault, end_structures, end_console,
  end_console_seg_fault, request_io, Outcome, blocked, done, outcome, q_ready, q_ready_fifo,
  q_ready_rr, q_blocked, schedule_next_to, without_first,
}
use geck.Kernel.Ready.{is_feedback, post_ready}
use geck.Kernel.Devices.{execute_io_default}

-- What the CPU sends. The answers for the screen and the keyboard are treated alike.
pub data DispatchMessage : Type 0 where
  io_console : Pcb → Text → Text → DispatchMessage
  io_default : Pcb → Text → ℤ → DispatchMessage
  execute_interruption : Pcb → DispatchMessage
  seg_fault : Pcb → DispatchMessage
  page_fault : Pcb → ℤ → ℤ → DispatchMessage
  end_process : Pcb → DispatchMessage

-- The process is no longer on the CPU.
abbrev pub free_cpu : Kernel → Kernel
free_cpu k = record k { sem_cpu_free_to_execute = suc k.sem_cpu_free_to_execute }

-- Under `m_out_of_Running`: the quantum's thread learns that an RR process has left. `strcmp` reads
-- `ultimo`, which is null before the first process has run.
abbrev pub mark_out : Kernel → Option Kernel
mark_out k = k.ultimo >>= λ last.
    some (if strcmp_eq last (codes "RR") then record k { flag_out_of_running = true } else k)

abbrev pub holds_mutex : QuantumThread → Bool
holds_mutex waiting = true
holds_mutex _ = false

-- What takes `m_out_of_Running` waits while the quantum's thread keeps it.
abbrev pub with_mutex : Kernel → Outcome → Outcome
with_mutex k step = if holds_mutex k.quantum then blocked else step

-- A process that ends: out of RUNNING, into EXIT, and room for another.
abbrev pub finish : Pcb → Kernel → Kernel
finish pcb k = record k {
  sem_grado_multiprogamacion = suc k.sem_grado_multiprogamacion;
  list_running = without_first k.list_running;
  list_exit = k.list_exit ++ change_pcb_state_to pcb PcbStatus.exit ∷ [];
}

abbrev pub exited : Pcb → Pcb
exited pcb = change_pcb_state_to pcb PcbStatus.exit

module _ (same : Text → Text → Bool) (c : KernelConfig) where
  -- The end of a quantum, by the algorithm; under any other name of one the process is lost.
  abbrev pub requeue : Pcb → Kernel → Kernel
  requeue pcb k =
      if same c.algoritmo_planificacion (codes "RR")
      then post_ready same c (schedule_next_to pcb PcbStatus.ready q_ready k)
      else if is_feedback same c
      then post_ready same c (schedule_next_to pcb PcbStatus.ready q_ready_fifo k)
      else k

  -- A round of `manage_dispatch`, as one step: a wait for the mutex is before all of it, also before
  -- the posts of the two semaphores that stand in front of the wait.
  unfoldable pub manage_dispatch : DispatchMessage → Kernel → Outcome
  manage_dispatch (io_console pcb device parameter) k = with_mutex k (
      outcome (do
        k₁ ← mark_out (free_cpu k)
        some (
          k₁,
          request_io pcb.client_socket (change_pcb_state_to pcb PcbStatus.blocked) device parameter
              ∷ [],
        )))
  manage_dispatch (io_default pcb device parameter) k = with_mutex k (
      outcome (do
        k₁ ← mark_out (free_cpu k)
        k₂ ←
            execute_io_default (change_pcb_state_to pcb PcbStatus.blocked) device parameter
              (schedule_next_to pcb PcbStatus.blocked q_blocked k₁)
        some (k₂, [])))
  manage_dispatch (execute_interruption pcb) k =
      done (requeue pcb (record (free_cpu k) { list_running = without_first k.list_running })) []
  manage_dispatch (seg_fault pcb) k = with_mutex k (
      outcome (do
        k₁ ← mark_out (free_cpu k)
        some (
          finish pcb k₁,
          end_console_seg_fault pcb.client_socket ∷ end_structures (exited pcb) ∷ [],
        )))
  manage_dispatch (page_fault pcb segment page) k =
      done
        (record (free_cpu k) {
          list_running = without_first k.list_running;
          faults = k.faults ++ (pcb, segment, page) ∷ [];
        })
        []
  manage_dispatch (end_process pcb) k = with_mutex k (
      outcome (do
        k₁ ← mark_out (free_cpu k)
        some (finish pcb k₁, end_structures (exited pcb) ∷ end_console pcb.client_socket ∷ [])))

  -- The thread of a page fault that gets `m_resolve_page_fault`; it leaves it locked.
  unfoldable pub resolve_page_fault : Kernel → Outcome
  resolve_page_fault k = if k.resolving then blocked else elim k.faults [
    | [] ↦ blocked
    | ◌∷◌ first rest ↦
        done (record k { faults = rest; resolving = true })
          (request_page_fault (change_pcb_state_to first.0 PcbStatus.blocked) first.1 first.2 ∷ [])
  ]

  -- RESPONSE_PAGE_FAULT: under FEEDBACK `sem_process_in_ready` is not posted.
  unfoldable pub page_fault_resolved : Pcb → Kernel → Outcome
  page_fault_resolved pcb k =
      done
        (record (if is_feedback same c
          then schedule_next_to pcb PcbStatus.ready q_ready_rr k
          else post_ready same c (schedule_next_to pcb PcbStatus.ready q_ready k)) {
            resolving = false;
          })
        []
