-- ===== src/Cpu/Cycle/Restart.antt =====
-- What a page fault does to the instruction cycle of cpu/src/cpu.c.
use geck.Prelude.{
  negsuc, List, [], ◌∷◌, length, some, ap, true, false, Bool-cases, inl, inr, list_get, ◌≡◌, refl,
}
use geck.Shared.{Pcb, keyfromstring, key_in}
use geck.Shared.Strings.{Text, codes, strcmp_eq, atoi}
use geck.Memory.{MemoryConfig, Memory}
use geck.Memory.Handlers.{CpuReply, frame_request, attend_cpu}
use geck.Cpu.{CpuConfig, Cpu, Commons}
use geck.Cpu.RegisterFile.{set_registers, save_context_pcb}
use geck.Cpu.Tlb.{present_in_tlb}
use geck.Cpu.Tlb.Contents.{IsMissing, search-missing}
use geck.Cpu.Mmu.{
  LogicalAddress, frame_of_reply, find_frame, miss, build_physical_address,
  translate_logical_address,
}
use geck.Cpu.Cycle.{
  Round, CpuMessage, fetch_next_instruction_to_execute, decode, execute_mov_in, execute_key,
  interrupt, stops, execute_instruction, execute_round, execute_loop, report, execute_process,
}

-- No flag is set.
pub record IsIdle (cpu : Cpu) : Type 0 where
  pub no_end : cpu.end_process ≡ false
  pub no_io : cpu.input_output ≡ false
  pub no_interruption : cpu.check_interruption ≡ false
  pub no_fault : cpu.page_fault ≡ false
  pub no_sigsegv : cpu.sigsegv ≡ false

module _ (lib : Commons) (c : CpuConfig) (m : MemoryConfig) (pcb : Pcb) (parts : LogicalAddress)
    (register address : Text) (round : Round) where
  abbrev pub faulted : Cpu → Cpu
  faulted cpu = record cpu {
    page_fault = true;
    fault_segment = parts.segment_number;
    fault_page = parts.page_num;
  }

  mov_in-fault :
      (cpu : Cpu) (s s₁ : Memory)
      → length cpu.tlb ≡ c.entradas_tlb
      → IsMissing parts.page_num parts.segment_number pcb.process_id cpu.tlb
      → cpu.sigsegv ≡ false
      → translate_logical_address c (atoi address) pcb cpu ≡ some (parts, cpu)
      → (attend_cpu m (frame_request pcb parts.page_num parts.segment_number) s
          ≡ some (CpuReply.page_fault (negsuc 0), s₁))
      → execute_mov_in lib c m round register address pcb cpu s ≡ some (faulted cpu, s₁)
  unfolding execute_mov_in build_physical_address present_in_tlb miss find_frame frame_of_reply
  mov_in-fault cpu s s₁ long missing no_sigsegv translated reply =
      rw
        (
          translated,
          no_sigsegv,
          search-missing round.hit parts.page_num parts.segment_number pcb.process_id cpu.tlb
              c.entradas_tlb missing long,
          reply,
        )
        refl

  round-fault :
      (line : Text) (cpu : Cpu) (s s₁ : Memory)
      → list_get pcb.instructions pcb.program_counter ≡ some line
      → lib.string_split line (codes " ") ≡ codes "MOV_IN" ∷ register ∷ address ∷ []
      → execute_mov_in lib c m round register address pcb cpu s ≡ some (faulted cpu, s₁)
      → execute_round lib c m round pcb cpu s ≡ some (pcb, faulted cpu, s₁)
  unfolding execute_round execute_instruction execute_key fetch_next_instruction_to_execute decode
      keyfromstring key_in strcmp_eq
  round-fault line cpu s s₁ fetched split faults = rw (fetched, split, faults) refl

  stop-fault :
      (second : Round) (rounds : List Round) (cpu : Cpu) (s : Memory)
      → IsIdle cpu
      → execute_loop lib c m (second ∷ rounds) pcb (faulted cpu) s
        ≡ some (pcb, interrupt lib c m second.interrupted (faulted cpu), s)
  unfolding execute_loop
  stop-fault second rounds cpu s idle = elim (Bool-cases second.interrupted) [
    | inl came ↦ rw came refl
    | inr quiet ↦ rw (quiet, idle.no_interruption, idle.no_end, idle.no_io) refl
  ]

  stops-idle : (cpu : Cpu) → IsIdle cpu → stops lib c m cpu ≡ false
  stops-idle cpu idle =
      rw (idle.no_interruption, idle.no_end, idle.no_io, idle.no_fault, idle.no_sigsegv) refl

  loop-round :
      (rounds : List Round) (cpu cpu₁ : Cpu) (s s₁ : Memory) (pcb₁ : Pcb)
      → round.interrupted ≡ false
      → IsIdle cpu
      → execute_round lib c m round pcb cpu s ≡ some (pcb₁, cpu₁, s₁)
      → execute_loop lib c m (round ∷ rounds) pcb cpu s ≡ execute_loop lib c m rounds pcb₁ cpu₁ s₁
  unfolding execute_loop
  loop-round rounds cpu cpu₁ s s₁ pcb₁ quiet idle done =
      let unchanged : interrupt lib c m round.interrupted cpu ≡ cpu =
        ap (λ b. interrupt lib c m b cpu) quiet in
      rw (unchanged, stops-idle cpu idle, done) refl

-- A MOV_IN whose page is neither in the TLB nor in memory ends the cycle at once: the kernel gets a
-- page fault with the segment and the page, and the very process control block that it had sent, so
-- that the instruction is executed again. Every flag is clear afterwards, and an interrupt that arrives
-- in the meantime is dropped.
pub execute_process-page_fault :
    (lib : Commons) (c : CpuConfig) (m : MemoryConfig) (pcb : Pcb) (parts : LogicalAddress)
    (line register address : Text) (first second : Round) (rounds : List Round) (cpu : Cpu)
    (s s₁ : Memory)
    → IsIdle cpu
    → first.interrupted ≡ false
    → list_get pcb.instructions pcb.program_counter ≡ some line
    → lib.string_split line (codes " ") ≡ codes "MOV_IN" ∷ register ∷ address ∷ []
    → translate_logical_address c (atoi address) pcb (set_registers pcb cpu)
      ≡ some (parts, set_registers pcb cpu)
    → length cpu.tlb ≡ c.entradas_tlb
    → IsMissing parts.page_num parts.segment_number pcb.process_id cpu.tlb
    → (attend_cpu m (frame_request pcb parts.page_num parts.segment_number) s
        ≡ some (CpuReply.page_fault (negsuc 0), s₁))
    → (cpu₁ : Cpu) × IsIdle cpu₁
      × (cpu₁.registers ≡ pcb.cpu_registers)
      × (cpu₁.tlb ≡ cpu.tlb)
      × (execute_process lib c m (first ∷ second ∷ rounds) pcb cpu s
          ≡ some (CpuMessage.page_fault pcb parts.segment_number parts.page_num, cpu₁, s₁))
unfolding execute_process execute_loop report set_registers save_context_pcb
execute_process-page_fault lib c m pcb parts line register address first second rounds cpu s s₁ idle
      quiet fetched split translated long missing reply =
    let cpu' = set_registers pcb cpu in
    let faults =
      mov_in-fault lib c m pcb parts register address first cpu' s s₁ long missing idle.no_sigsegv
        translated reply in
    let idle' : IsIdle cpu' = record {
      no_end = idle.no_end;
      no_io = idle.no_io;
      no_interruption = idle.no_interruption;
      no_fault = idle.no_fault;
      no_sigsegv = idle.no_sigsegv;
    } in
    let round =
      round-fault lib c m pcb parts register address first line cpu' s s₁ fetched split faults in
    let stop = stop-fault lib c m pcb parts register address first second rounds cpu' s₁ idle' in
    (
      record (faulted lib c m pcb parts register address first cpu') {
        page_fault = false;
        check_interruption = false;
      },
      record {
        no_end = idle.no_end;
        no_io = idle.no_io;
        no_interruption = refl;
        no_fault = refl;
        no_sigsegv = idle.no_sigsegv;
      },
      refl,
      refl,
      rw
          (
            loop-round lib c m pcb parts register address first (second ∷ rounds) cpu'
                (faulted lib c m pcb parts register address first cpu') s s₁ pcb quiet idle' round,
            stop,
          )
          (elim (Bool-cases second.interrupted) [
            | inl came ↦ rw (came, idle.no_end, idle.no_io) refl
            | inr none_came ↦ rw (none_came, idle.no_end, idle.no_io) refl
          ]),
    )
