-- ===== src/Tests/Kernel.antt =====
-- The theorems on the kernel module at small states.
use mathlib.Core.List.Perm
use geck.Prelude.{
  ◌⊎◌, ℕ, ◌+◌, List, some, true, arith, ◌≡◌, ◌≢◌, inl, refl, pos, [], ◌∷◌, ◌++◌, false, none,
}
use geck.Shared.Strings.{Text, codes, strcmp_eq}
use geck.Shared.{Pcb, PcbStatus, status_int, change_pcb_state_to}
use geck.Kernel.{KernelConfig, Kernel, QuantumThread, blocked, done, execute_pcb, init_kernel}
use geck.Kernel.Ready.{
  make_ready, post_ready, io_response, take_process_in_ready, schedule_next_to_running,
  dispatch_next,
}
use geck.Kernel.Dispatch.{DispatchMessage, manage_dispatch, page_fault_resolved}
use geck.Kernel.Devices.{dictionary_get, execute_io_default, simulate_io_default}
use geck.Kernel.Devices.Order.{HasQueue, execute_io_default-HasQueue, simulate_io_default-HasQueue}
use geck.Kernel.Quantum.{count_quantum_of_round_robin, manage_interrupt}
use geck.Kernel.System.Exceeds.{IsFeedback, answered_faults}
use geck.Kernel.System.LostWakeups.{take_process_in_ready-Serially}
use geck.Kernel.System.Deadlock.{now, manage_interrupt-deadlock}
use geck.Kernel.System.{
  Event, console_io, take_ready, memory_fault, schedule, step, Serially, stop, then_step, Overlap,
}
use geck.Kernel.System.Keeps.{IsSequential, IsConsistent, Then}
use geck.Kernel.System.Steps.{step-keeps}
use geck.Cpu.Cycle.{CpuMessage}
use geck.Cpu.Messages.{send_message}
use geck.Shared.Wire.Bytes.{pcb_bytes}
use geck.Kernel.Messages.{receive_dispatch}
use geck.Kernel.Messages.FromCpu.{receive_dispatch-send_message}
use geck.Tests.Shared.{block-IsPcb}
use geck.Tests.Data.{process}

abbrev pub kernel_config : Text → KernelConfig
kernel_config algorithm = record {
  algoritmo_planificacion = algorithm;
  grado_max_multiprogramacion = 2;
}

fifo-IsSequential : IsSequential strcmp_eq (kernel_config (codes "FIFO"))
unfolding strcmp_eq
fifo-IsSequential = record { plain = inl refl; no_feedback = refl; named = refl }

abbrev block : Pcb
block = process (codes "EXIT" ∷ [])

-- The start, and the state after a console has answered.
abbrev initial : Kernel
initial = record {
  list_new = [];
  list_ready = [];
  list_ready_fifo = [];
  list_ready_rr = [];
  list_blocked = [];
  list_running = [];
  list_exit = [];
  pid_counter = pos 1;
  sem_grado_multiprogamacion = 2;
  sem_process_in_ready = 0;
  sem_cpu_free_to_execute = 1;
  sem_beggin_quantum = 0;
  sem_interruption_quantum = 0;
  sem_interruption_quantum_finish = 0;
  sem_init_process_memory = 0;
  sem_schedule_ready = 1;
  starting = 0;
  entering = false;
  initializing = false;
  scheduling = false;
  quantum = QuantumThread.resting;
  flag_out_of_running = false;
  ultimo = none;
  faults = [];
  resolving = false;
  dictionary_io = [];
}

abbrev answered : Kernel
answered = record initial {
  list_ready = change_pcb_state_to block PcbStatus.ready ∷ [];
  sem_process_in_ready = 1;
}

-- The short term scheduler has taken the post, and waits for the CPU.
abbrev holding : Kernel
holding = record initial {
  list_ready = change_pcb_state_to block PcbStatus.ready ∷ [];
  scheduling = true;
}

abbrev fifo : KernelConfig
fifo = kernel_config (codes "FIFO")

-- Steps that overlap leave what they leave in the order in which they stand.
abbrev in_order : Overlap strcmp_eq fifo
in_order = Serially strcmp_eq fifo

initial-IsConsistent : IsConsistent initial
initial-IsConsistent = record { ready = refl; starting = refl; alone = refl }

step_example :
    Then IsConsistent (step strcmp_eq (kernel_config (codes "FIFO")) (console_io block) initial)
step_example =
    step-keeps strcmp_eq (kernel_config (codes "FIFO")) fifo-IsSequential (console_io block) initial
      initial-IsConsistent

-- Under FEEDBACK a console and the memory have answered, and one process has come to the CPU.
abbrev feedback : KernelConfig
feedback = kernel_config (codes "FEEDBACK")

feedback-IsFeedback : IsFeedback strcmp_eq feedback
unfolding strcmp_eq
feedback-IsFeedback = record { named = refl; known = refl; no_rr = refl }

abbrev ready_block : Pcb
ready_block = change_pcb_state_to block PcbStatus.ready

abbrev at_start : Kernel
at_start = record initial { sem_interruption_quantum_finish = 1 }

abbrev console_done : Kernel
console_done = record at_start { list_ready_rr = ready_block ∷ []; sem_process_in_ready = 1 }

abbrev page_loaded : Kernel
page_loaded = record console_done { list_ready_rr = ready_block ∷ ready_block ∷ [] }

abbrev post_taken : Kernel
post_taken = record page_loaded { sem_process_in_ready = 0; scheduling = true }

abbrev left_behind : Kernel
left_behind = record post_taken {
  list_ready_rr = ready_block ∷ [];
  list_running = change_pcb_state_to ready_block PcbStatus.running ∷ [];
  scheduling = false;
  sem_cpu_free_to_execute = 0;
  sem_beggin_quantum = 1;
  ultimo = some (codes "RR");
}

abbrev two_answers : List Event
two_answers = console_io block ∷ memory_fault block ∷ take_ready ∷ schedule ∷ []

left_behind-Serially :
    Serially strcmp_eq feedback two_answers (init_kernel strcmp_eq feedback []) left_behind
unfolding step io_response page_fault_resolved take_process_in_ready schedule_next_to_running
    dispatch_next init_kernel strcmp_eq change_pcb_state_to
left_behind-Serially =
    then_step (console_io block) (memory_fault block ∷ take_ready ∷ schedule ∷ []) at_start
      console_done left_behind [] refl
      (then_step (memory_fault block) (take_ready ∷ schedule ∷ []) console_done page_loaded
        left_behind [] refl
        (then_step take_ready (schedule ∷ []) page_loaded post_taken left_behind [] refl (
          then_step schedule [] post_taken left_behind left_behind
            (execute_pcb (change_pcb_state_to ready_block PcbStatus.running) ∷ []) refl
            (stop left_behind))))

lost_wakeup_example :
    (0 + answered_faults two_answers ≡ 1)
    × ((◌≢◌ {A = ℕ} 0 0)
        ⊎ ((take_process_in_ready strcmp_eq feedback left_behind ≡ blocked)
            × (1 ≡ answered_faults two_answers)))
lost_wakeup_example =
    take_process_in_ready-Serially strcmp_eq feedback [] two_answers left_behind feedback-IsFeedback
      left_behind-Serially

-- Twice the quantum has run out with an empty RUNNING.
abbrev expired : Kernel
expired = record initial { quantum = QuantumThread.waiting; sem_interruption_quantum = 1 }

deadlock_example :
    (manage_interrupt expired ≡ done (record expired { sem_interruption_quantum = 0 }) [])
    × (manage_dispatch strcmp_eq
          (kernel_config (codes "RR"))
          (DispatchMessage.end_process block)
          (record expired { sem_interruption_quantum = 0 })
        ≡ blocked)
    × (count_quantum_of_round_robin true (record expired { sem_interruption_quantum = 0 })
        ≡ blocked)
deadlock_example =
    manage_interrupt-deadlock strcmp_eq (kernel_config (codes "RR")) expired
      (record expired { sem_interruption_quantum = 0 }) block true refl refl refl refl now

-- A disk for which a process waits.
abbrev disk_kernel : Kernel
disk_kernel = record initial {
  dictionary_io =
      (
        codes "DISCO",
        record {
          device_name = codes "DISCO";
          device_locked_time = pos 10;
          list_processes = (pos 2, block) ∷ [];
          sem_devices = 1;
        },
      )
      ∷ [];
}

disk_kernel-HasQueue : HasQueue disk_kernel (codes "DISCO") ((pos 2, block) ∷ [])
unfolding dictionary_get strcmp_eq
disk_kernel-HasQueue = record { device = _; found = refl; queued = refl; counted = refl }

queue_example :
    (k' : Kernel) × (execute_io_default block (codes "DISCO") (pos 3) disk_kernel ≡ some k')
    × HasQueue k' (codes "DISCO") ((pos 2, block) ∷ (pos 3, block) ∷ [])
queue_example =
    execute_io_default-HasQueue disk_kernel (codes "DISCO") ((pos 2, block) ∷ []) block (pos 3)
      disk_kernel-HasQueue

serve_example :
    (k' : Kernel) × (simulate_io_default strcmp_eq
        (kernel_config (codes "FIFO"))
        (codes "DISCO")
        disk_kernel
      ≡ done
          (post_ready strcmp_eq
            (kernel_config (codes "FIFO"))
            (make_ready strcmp_eq (kernel_config (codes "FIFO")) block k'))
          [])
    × HasQueue
        (post_ready strcmp_eq
          (kernel_config (codes "FIFO"))
          (make_ready strcmp_eq (kernel_config (codes "FIFO")) block k'))
        (codes "DISCO")
        []
    × ((post_ready strcmp_eq
          (kernel_config (codes "FIFO"))
          (make_ready strcmp_eq (kernel_config (codes "FIFO")) block k')).sem_process_in_ready
        ≡ 1)
serve_example =
    simulate_io_default-HasQueue strcmp_eq (kernel_config (codes "FIFO")) disk_kernel
      (codes "DISCO") (pos 2) block [] disk_kernel-HasQueue

dispatch_example :
    receive_dispatch (send_message (CpuMessage.page_fault block (pos 0) (pos 2)) [] ++ 1 ∷ [])
    ≡ some (some (DispatchMessage.page_fault block (pos 0) (pos 2)), 1 ∷ [])
unfolding pcb_bytes status_int
dispatch_example =
    receive_dispatch-send_message (CpuMessage.page_fault block (pos 0) (pos 2)) (1 ∷ [])
      (block-IsPcb, omega arith, omega arith, omega arith)
