-- ===== src/Kernel/Quantum.antt =====
-- The quantum of kernel/src/kernel.c: `count_quantum_of_RoundRobin` and `manage_interrupt`.
use geck.Prelude.{List, [], ◌∷◌, suc, ◌-◌, ◌==◌, Bool, false, if◌then◌else◌}
use geck.Shared.{Pcb}
use geck.Kernel.{
  Kernel, QuantumThread, resting, counting, waiting, interrupt_cpu, Outcome, blocked, done,
}

-- The round of the inner loop that reads the clock, with whether the quantum is over. The mutex is
-- locked over the round; when the quantum is over it stays locked until the interrupt has been sent.
unfoldable pub read_clock : Bool → Kernel → Kernel
read_clock elapsed k =
    if k.flag_out_of_running
    then record k { flag_out_of_running = false; quantum = resting }
    else if elapsed
    then record k { sem_interruption_quantum = suc k.sem_interruption_quantum; quantum = waiting }
    else k

abbrev pub quantum_step : QuantumThread → Bool → Kernel → Outcome
quantum_step resting elapsed k =
    if k.sem_beggin_quantum == 0
    then blocked
    else done
        (record k {
          sem_beggin_quantum = k.sem_beggin_quantum - 1;
          flag_out_of_running = false;
          quantum = counting;
        })
        []
quantum_step counting elapsed k = done (read_clock elapsed k) []
quantum_step waiting elapsed k =
    if k.sem_interruption_quantum_finish == 0
    then blocked
    else done
        (record k {
          sem_interruption_quantum_finish = k.sem_interruption_quantum_finish - 1;
          quantum = resting;
        })
        []

unfoldable pub count_quantum_of_round_robin : Bool → Kernel → Outcome
count_quantum_of_round_robin elapsed k = quantum_step k.quantum elapsed k

-- With no process in RUNNING nothing is sent, and nothing is posted.
abbrev pub answer : List Pcb → Kernel → Outcome
answer [] k = done k []
answer (pcb ∷ rest) k =
    done (record k { sem_interruption_quantum_finish = suc k.sem_interruption_quantum_finish })
      (interrupt_cpu ∷ [])

-- A round of `manage_interrupt`.
unfoldable pub manage_interrupt : Kernel → Outcome
manage_interrupt k =
    if k.sem_interruption_quantum == 0
    then blocked
    else answer k.list_running
        (record k { sem_interruption_quantum = k.sem_interruption_quantum - 1 })
