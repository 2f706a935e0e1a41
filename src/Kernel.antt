-- ===== src/Kernel.antt =====
-- kernel/include/kernel.h: the data of the kernel module, its lists and its semaphores. A PCB in a list
-- is its value: the module reads a new one from every message.
pub mod Ready
pub mod Reception
pub mod Messages
pub mod Dispatch
pub mod Quantum
pub mod ReadyLog
pub mod Devices
pub mod System
use geck.Prelude.{
  ℕ, ℤ, pos, List, [], ◌∷◌, ◌++◌, Bool, false, ◌||◌, Option, none, some, if◌then◌else◌,
}
use geck.Shared.Strings.{Text, codes}
use geck.Shared.{Pcb, PcbStatus, change_pcb_state_to}

-- `t_kernel_config` without the addresses, the ports and the devices
pub record KernelConfig : Type 0 where
  pub algoritmo_planificacion : Text
  pub grado_max_multiprogramacion : ℕ

-- `t_device`. The elements of `list_processes` alternate between a time and a process.
pub record Device : Type 0 where
  pub device_name : Text
  pub device_locked_time : ℤ
  pub list_processes : List (ℤ × Pcb)
  pub sem_devices : ℕ

-- Where the thread of `count_quantum_of_RoundRobin` is: before `sem_beggin_quantum`, in its loop, or
-- waiting for `sem_interruption_quantum_finish`, which it does with `m_out_of_Running` locked.
pub data QuantumThread : Type 0 where
  resting counting waiting : QuantumThread

-- The lists, the semaphores and the flags of the module. `starting` counts the console threads that
-- wait for `sem_schedule_ready`, `entering` says that one has it and waits for
-- `sem_grado_multiprogamacion`, and `initializing` that one waits for the memory. `scheduling` says that
-- the short term scheduler has taken `sem_process_in_ready` and waits for `sem_cpu_free_to_execute`.
-- `faults` are the threads of `resolve_page_fault` that wait for `m_resolve_page_fault`, which
-- `resolving` says is locked.
pub record Kernel : Type 0 where
  pub list_new : List Pcb
  pub list_ready : List Pcb
  pub list_ready_fifo : List Pcb
  pub list_ready_rr : List Pcb
  pub list_blocked : List Pcb
  pub list_running : List Pcb
  pub list_exit : List Pcb
  pub pid_counter : ℤ
  pub sem_grado_multiprogamacion : ℕ
  pub sem_process_in_ready : ℕ
  pub sem_cpu_free_to_execute : ℕ
  pub sem_beggin_quantum : ℕ
  pub sem_interruption_quantum : ℕ
  pub sem_interruption_quantum_finish : ℕ
  pub sem_init_process_memory : ℕ
  pub sem_schedule_ready : ℕ
  pub starting : ℕ
  pub entering : Bool
  pub initializing : Bool
  pub scheduling : Bool
  pub quantum : QuantumThread
  pub flag_out_of_running : Bool
  pub ultimo : Option Text
  pub faults : List (Pcb × ℤ × ℤ)
  pub resolving : Bool
  pub dictionary_io : List (Text × Device)

-- What the module sends.
pub data Message : Type 0 where
  execute_pcb : Pcb → Message
  interrupt_cpu : Message
  init_structures : Pcb → Message
  request_page_fault : Pcb → ℤ → ℤ → Message
  end_structures : Pcb → Message
  end_console : ℤ → Message
  end_console_seg_fault : ℤ → Message
  request_io : ℤ → Pcb → Text → Text → Message

-- How a step of a thread ends: it waits for a semaphore or a mutex, it dereferences a null pointer, or
-- it is done.
pub data Outcome : Type 0 where
  blocked fault : Outcome
  done : Kernel → List Message → Outcome

abbrev pub outcome : Option (Kernel × List Message) → Outcome
outcome none = fault
outcome (some (k, sent)) = done k sent

-- The global lists.
pub data Queue : Type 0 where
  q_new q_ready q_ready_fifo q_ready_rr q_blocked q_running q_exit : Queue

abbrev pub queue : Queue → Kernel → List Pcb
queue q_new k = k.list_new
queue q_ready k = k.list_ready
queue q_ready_fifo k = k.list_ready_fifo
queue q_ready_rr k = k.list_ready_rr
queue q_blocked k = k.list_blocked
queue q_running k = k.list_running
queue q_exit k = k.list_exit

abbrev pub with_queue : Queue → List Pcb → Kernel → Kernel
with_queue q_new pcbs k = record k { list_new = pcbs }
with_queue q_ready pcbs k = record k { list_ready = pcbs }
with_queue q_ready_fifo pcbs k = record k { list_ready_fifo = pcbs }
with_queue q_ready_rr pcbs k = record k { list_ready_rr = pcbs }
with_queue q_blocked pcbs k = record k { list_blocked = pcbs }
with_queue q_running pcbs k = record k { list_running = pcbs }
with_queue q_exit pcbs k = record k { list_exit = pcbs }

-- `add_to_list_with_sems` locks a copy of the list's mutex, so that nothing keeps two insertions apart;
-- this is what one insertion does that no other overlaps.
abbrev pub schedule_next_to : Pcb → PcbStatus → Queue → Kernel → Kernel
schedule_next_to pcb state q k = with_queue q (queue q k ++ change_pcb_state_to pcb state ∷ []) k

-- `list_remove(list, 0)` of a list that should have an element.
abbrev pub first_of : List Pcb → Option (Pcb × List Pcb)
first_of [] = none
first_of (pcb ∷ rest) = some (pcb, rest)

-- `list_remove(list_RUNNING, 0)`, whose result is not used: an empty list stays empty.
abbrev pub without_first : List Pcb → List Pcb
without_first [] = []
without_first (pcb ∷ rest) = rest

-- The start. The semaphores of the quantum are initialized only for RR and FEEDBACK; a global that is not
-- is 0.
unfoldable pub init_kernel : (Text → Text → Bool) → KernelConfig → List (Text × Device) → Kernel
init_kernel same c devices = record {
  list_new = [];
  list_ready = [];
  list_ready_fifo = [];
  list_ready_rr = [];
  list_blocked = [];
  list_running = [];
  list_exit = [];
  pid_counter = pos 1;
  sem_grado_multiprogamacion = c.grado_max_multiprogramacion;
  sem_process_in_ready = 0;
  sem_cpu_free_to_execute = 1;
  sem_beggin_quantum = 0;
  sem_interruption_quantum = 0;
  sem_interruption_quantum_finish =
      if same c.algoritmo_planificacion (codes "RR")
        || same c.algoritmo_planificacion (codes "FEEDBACK")
      then 1
      else 0;
  sem_init_process_memory = 0;
  sem_schedule_ready = 1;
  starting = 0;
  entering = false;
  initializing = false;
  scheduling = false;
  quantum = resting;
  flag_out_of_running = false;
  ultimo = none;
  faults = [];
  resolving = false;
  dictionary_io = devices;
}
