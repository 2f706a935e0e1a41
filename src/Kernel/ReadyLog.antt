-- ===== src/Kernel/ReadyLog.antt =====
-- The texts of the ready queues in the log of kernel/src/kernel.c. `itoa` is `string_itoa`, and `same` is
-- `string_equals_ignore_case`.
use geck.Prelude.{
  ℕ, suc, ◌+◌, ◌-◌, ◌≡◌, refl, sym, ap, ◌∙◌, ℤ, List, [], ◌∷◌, ◌++◌, append_assoc, append-nil, map,
  Bool, if◌then◌else◌, ◌==◌, ==_iff, ==_ne, length, arith,
}
use geck.Shared.Strings.{Text, codes}
use geck.Shared.{Pcb}
use geck.Kernel.{Kernel}

module _ (itoa : ℤ → Text) where
  -- The loop of the three functions: the size of the list, the index, and the processes from there.
  unfoldable pub append_pids : ℕ → ℕ → List Pcb → Text → Text
  append_pids size i [] aux = aux
  append_pids size i (pcb ∷ rest) aux =
      let aux₁ = aux ++ itoa pcb.process_id in
      append_pids size (suc i) rest (if i == size - 1 then aux₁ else aux₁ ++ codes "|")

  unfoldable pub pids_on_ready_fifo : Kernel → Text
  pids_on_ready_fifo k =
      append_pids (length k.list_ready_fifo) 0 k.list_ready_fifo (codes "[") ++ codes "]"

  unfoldable pub pids_on_ready_rr : Kernel → Text
  pids_on_ready_rr k =
      append_pids (length k.list_ready_rr) 0 k.list_ready_rr (codes "[") ++ codes "]"

  unfoldable pub pids_on_ready : Kernel → Text
  pids_on_ready k = append_pids (length k.list_ready) 0 k.list_ready (codes "[") ++ codes "]"

  -- The queues of a log entry, with their texts, behind the name of the algorithm.
  pub data Entry : Type 0 where
    ready_fifo : Text → Entry
    ready_rr : Text → Entry
    ready : Text → Entry

  unfoldable pub loggear_cola_ready : (Text → Text → Bool) → Text → Kernel → List Entry
  loggear_cola_ready same algoritmo k =
      if same algoritmo (codes "FEEDBACK")
      then ready_fifo (pids_on_ready_fifo k) ∷ ready_rr (pids_on_ready_rr k) ∷ []
      else ready (pids_on_ready k) ∷ []

  -- Texts with bars between them.
  abbrev pub joined : List Text → Text
  joined [] = []
  joined (t ∷ []) = t
  joined (t ∷ u ∷ rest) = t ++ (codes "|" ++ joined (u ∷ rest))

  -- The pids of a list of processes, in its order, with bars between them and brackets around.
  abbrev pub bracketed : List Pcb → Text
  bracketed pcbs =
      codes "[" ++ (joined (map (λ (pcb : Pcb). itoa pcb.process_id) pcbs) ++ codes "]")

  append_pids_lem :
      (pcbs : List Pcb) (size i : ℕ) (aux : Text)
      → i + length pcbs ≡ size
      → append_pids size i pcbs aux ≡ aux ++ joined (map (λ (pcb : Pcb). itoa pcb.process_id) pcbs)
  unfolding append_pids
  append_pids_lem [] size i aux h = sym (append-nil aux)
  append_pids_lem (p ∷ []) size i aux h = rw ((==_iff i (size - 1)).1 (omega (arith, h))) refl
  append_pids_lem (p ∷ q ∷ rest) size i aux h = rw (==_ne i (size - 1) (λ e. omega (arith, h))) (
      append_pids_lem (q ∷ rest) size (suc i) (aux ++ itoa p.process_id ++ codes "|")
        (omega (arith, h))
      ∙ append_assoc (aux ++ itoa p.process_id) (codes "|") _
      ∙ append_assoc aux (itoa p.process_id) _)

  pids_on_ready-bracketed :
      (k : Kernel)
      → (pids_on_ready k ≡ bracketed k.list_ready)
        × (pids_on_ready_fifo k ≡ bracketed k.list_ready_fifo)
        × (pids_on_ready_rr k ≡ bracketed k.list_ready_rr)
  unfolding pids_on_ready pids_on_ready_fifo pids_on_ready_rr
  pids_on_ready-bracketed k = (text k.list_ready, text k.list_ready_fifo, text k.list_ready_rr)
    where
      text :
          (pcbs : List Pcb)
          → append_pids (length pcbs) 0 pcbs (codes "[") ++ codes "]" ≡ bracketed pcbs
      text pcbs =
          ap (λ t. t ++ codes "]") (append_pids_lem pcbs (length pcbs) 0 (codes "[") (omega arith))

  -- A log entry has the pids of the queues in their order, between brackets and with bars between them:
  -- the two queues of FEEDBACK, or the one of the other algorithms.
  pub loggear_cola_ready-bracketed :
      (same : Text → Text → Bool) (algoritmo : Text) (k : Kernel)
      → loggear_cola_ready same algoritmo k ≡ (
          if same algoritmo (codes "FEEDBACK")
          then ready_fifo (bracketed k.list_ready_fifo) ∷ ready_rr (bracketed k.list_ready_rr) ∷ []
          else ready (bracketed k.list_ready) ∷ [])
  unfolding loggear_cola_ready
  loggear_cola_ready-bracketed same algoritmo k =
      let (all, fifo, rr) = pids_on_ready-bracketed k in rw (all, fifo, rr)
