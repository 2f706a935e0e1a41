-- ===== src/Kernel/System/Scheduler.antt =====
-- The schedulers of kernel/src/kernel.c in the states that the module reaches under FIFO and RR.
use geck.Prelude.{◌-◌, List, [], ◌∷◌, ◌++◌, Bool, false, ◌≡◌}
use geck.Shared.Strings.{Text}
use geck.Shared.{Pcb, PcbStatus, change_pcb_state_to}
use geck.Kernel.{KernelConfig, Kernel, done, execute_pcb}
use geck.Kernel.Ready.{schedule_next_to_running}
use geck.Kernel.System.Keeps.{IsSequential}

-- A READY list as its first process and the rest, and what the short term scheduler makes of it.
pub record Scheduled (same : Text → Text → Bool) (c : KernelConfig) (k : Kernel) : Type 0 where
  pub pcb : Pcb
  pub rest : List Pcb
  pub after : Kernel
  pub first : k.list_ready ≡ pcb ∷ rest
  pub result :
      schedule_next_to_running same c k
      ≡ done after (execute_pcb (change_pcb_state_to pcb PcbStatus.running) ∷ [])
  pub removed : after.list_ready ≡ rest
  pub running :
      after.list_running ≡ k.list_running ++ change_pcb_state_to pcb PcbStatus.running ∷ []

module _ (same : Text → Text → Bool) (c : KernelConfig) (sequential : IsSequential same c) where
  abbrev taken : Kernel → List Pcb → Kernel
  taken k rest = record k {
    list_ready = rest;
    scheduling = false;
    sem_cpu_free_to_execute = k.sem_cpu_free_to_execute - 1;
  }
