-- ===== src/Kernel/System/LostWakeups.antt =====
-- The posts that page faults do not make in kernel/src/kernel.c under FEEDBACK.
use geck.Prelude.{
  ℕ, ◌+◌, ◌==◌, ==_iff, List, length, Bool, true, ◌||◌, Bool-cases, ◌≡◌, ◌≢◌, ◌⊎◌, inl, inr, refl,
  subst, arith,
}
use geck.Shared.Strings.{Text}
use geck.Kernel.{KernelConfig, Device, Kernel, blocked, init_kernel}
use geck.Kernel.Ready.{take_process_in_ready}
use geck.Kernel.System.{Event, Serially, stop, then_step}
use geck.Kernel.System.Keeps.{Then, count}
use geck.Kernel.System.Exceeds.{
  IsFeedback, answered_fault, answered_faults, Exceeds, plus, plus-eq, step-Exceeds,
}

serial-Exceeds :
    (same : Text → Text → Bool) (c : KernelConfig)
    → IsFeedback same c
    → (es : List Event) (n : ℕ) (k k' : Kernel) → Exceeds n k
    → Serially same c es k k'
    → Exceeds (answered_faults es + n) k'
serial-Exceeds same c feedback _ n _ _ w (stop k) = omega (arith, w)
serial-Exceeds same c feedback _ n _ _ w (then_step e es k k' k'' sent taken rest) =
    let one =
      subst (Then (Exceeds (plus (answered_fault e) n))) taken
        (step-Exceeds same c feedback n e k w) in
    let all = serial-Exceeds same c feedback es (plus (answered_fault e) n) k' k'' one rest in
    omega (arith, all, plus-eq (answered_fault e) n)

none_left :
    (k : Kernel)
    → (k.sem_process_in_ready + count k.scheduling == 0) ≡ true
    → (k.scheduling || k.sem_process_in_ready == 0) ≡ true
none_left k idle = ground arith

-- Under FEEDBACK every page fault that the memory answers loses a post for good: after any steps of the
-- threads from the start, each taken whole, the two queues of READY together have as many processes as
-- there are posts, the one that the short term scheduler may hold included, and answered page faults. So
-- either a post is left, or the scheduler holds one, or it is blocked with as many processes in READY as
-- page faults have been answered.
pub take_process_in_ready-Serially :
    (same : Text → Text → Bool) (c : KernelConfig) (devices : List (Text × Device))
    (es : List Event) (k : Kernel)
    → IsFeedback same c
    → Serially same c es (init_kernel same c devices) k
    → (k.sem_process_in_ready + count k.scheduling + answered_faults es
        ≡ length k.list_ready_rr + length k.list_ready_fifo)
      × ((k.sem_process_in_ready + count k.scheduling ≢ 0)
          ⊎ ((take_process_in_ready same c k ≡ blocked)
              × (length k.list_ready_rr + length k.list_ready_fifo ≡ answered_faults es)))
unfolding init_kernel take_process_in_ready
take_process_in_ready-Serially same c devices es k feedback taken =
    let w : Exceeds (answered_faults es + 0) k =
      serial-Exceeds same c feedback es 0 (init_kernel same c devices) k refl taken in
    (
      omega (arith, w),
      elim (Bool-cases (k.sem_process_in_ready + count k.scheduling == 0)) [
        | inl idle ↦ inr (
          rw (none_left k idle) refl,
          omega (arith, w, (==_iff (k.sem_process_in_ready + count k.scheduling) 0).0 idle),
        )
        | inr some_left ↦ inl (λ e. ground (arith, e, some_left))
      ],
    )
