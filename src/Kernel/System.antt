-- ===== src/Kernel/System.antt =====
-- The threads of kernel/src/kernel.c as one system: the steps that they take, in any order, and the
-- states that are reached.
pub mod Keeps
pub mod Steps
pub mod Scheduler
pub mod Deadlock
pub mod Exceeds
pub mod LostWakeups
use mathlib.Core.List.{Perm}
use geck.Prelude.{ℕ, ℤ, List, [], ◌∷◌, Bool, ◌≡◌}
use geck.Shared.Strings.{Text}
use geck.Shared.{Pcb}
use geck.Kernel.{KernelConfig, Device, Kernel, Message, Outcome, done, init_kernel}
use geck.Kernel.Ready.{
  init_process, io_response, take_schedule_ready, take_process_in_ready, begin_next_to_ready,
  memory_initialized, finish_next_to_ready, schedule_next_to_running,
}
use geck.Kernel.Dispatch.{DispatchMessage, manage_dispatch, resolve_page_fault, page_fault_resolved}
use geck.Kernel.Devices.{simulate_io_default}
use geck.Kernel.Quantum.{count_quantum_of_round_robin, manage_interrupt}

-- Which thread goes on, with the message that it has received.
pub data Event : Type 0 where
  console_init : ℤ → List Text → List Text → Event
  console_io : Pcb → Event
  take_turn : Event
  begin_ready : Event
  memory_init : Pcb → Event
  finish_ready : Event
  take_ready : Event
  schedule : Event
  cpu : DispatchMessage → Event
  fault_thread : Event
  memory_fault : Pcb → Event
  serve_device : Text → Event
  clock : Bool → Event
  interrupt : Event

module _ (same : Text → Text → Bool) (c : KernelConfig) where
  unfoldable pub step : Event → Kernel → Outcome
  step (console_init socket instructions segments) k =
      init_process same c socket instructions segments k
  step (console_io pcb) k = io_response same c pcb k
  step take_turn k = take_schedule_ready same c k
  step begin_ready k = begin_next_to_ready same c k
  step (memory_init pcb) k = memory_initialized same c pcb k
  step finish_ready k = finish_next_to_ready same c k
  step take_ready k = take_process_in_ready same c k
  step schedule k = schedule_next_to_running same c k
  step (cpu message) k = manage_dispatch same c message k
  step fault_thread k = resolve_page_fault same c k
  step (memory_fault pcb) k = page_fault_resolved same c pcb k
  step (serve_device name) k = simulate_io_default same c name k
  step (clock elapsed) k = count_quantum_of_round_robin elapsed k
  step interrupt k = manage_interrupt k

  -- Steps one after the other.
  pub data Serially : List Event → Kernel → Kernel → Type 0 where
    stop : (k : Kernel) → Serially [] k k
    then_step :
        (e : Event) (es : List Event) (k k' k'' : Kernel) (sent : List Message)
        → step e k ≡ done k' sent
        → Serially es k' k''
        → Serially (e ∷ es) k k''

  -- What steps leave that overlap in time. `schedule_next_to` takes its mutex by value and locks a copy,
  -- so that the list library decides it: a parameter.
  abbrev pub Overlap : Type 1
  Overlap = List Event → Kernel → Kernel → Type 0

  -- Steps that overlap leave what they leave in some order.
  abbrev pub IsAtomic : Overlap → Type 0
  IsAtomic overlap =
      (es : List Event) (k k' : Kernel)
      → overlap es k k'
      → (order : List Event) × Perm es order × Serially order k k'

  -- The states that the module reaches from its start, by single steps and by steps that overlap.
  pub data Reachable (overlap : Overlap) (devices : List (Text × Device)) : Kernel → Type 0 where
    started : Reachable overlap devices (init_kernel same c devices)
    next :
        (k k' : Kernel) (e : Event) (sent : List Message)
        → Reachable overlap devices k
        → step e k ≡ done k' sent
        → Reachable overlap devices k'
    together :
        (k k' : Kernel) (es : List Event)
        → Reachable overlap devices k
        → overlap es k k'
        → Reachable overlap devices k'
