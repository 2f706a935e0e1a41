-- ===== src/Memory/View/Fault.antt =====
-- A page fault, as the pages see it: REQUEST_PAGE_FAULT of `attend_kernel`.
use geck.Prelude.{
  ℕ, ◌≡◌, ◌≢◌, ◌⊎◌, inl, inr, sym, ap, ◌∙◌, subst, ℤ, pos, true, false, some, length, get_elem?,
  list_get,
}
use geck.Shared.{Pcb, Segment}
use geck.Memory.{MemoryConfig, PageRow, PageTable, Memory, set_struct_clock}
use geck.Memory.Bitmap.{find_page_free}
use geck.Memory.Store.{read_page_swap}
use geck.Memory.Store.Slices.{read_page_swap_in_range, write_frame_in_range}
use geck.Memory.Tables.{get_page_table_by_index, get_row, get_frame_number_ram}
use geck.Memory.Handlers.{
  frame_request, frame_response, response_page_fault, solve_page_fault, attend_cpu,
}
use geck.Memory.Handlers.PageFault.{IsAlgorithm, table_kept}
use geck.Memory.View.{contents, Owners, HasOwner, HasClock, IsStore}
use geck.Memory.View.Change.{same_row}
use geck.Memory.View.Choose.{Chosen, full-Chosen, free-Chosen}
use geck.Memory.View.Load.{filled, load_page-filled, filled-IsStore, contents-load, row_out}

-- A page of a living process, which its segment and its number name, and which is in no frame.
pub record IsMissing (s : Memory) (g : Owners) (pcb : Pcb) (segment_number page_number : ℤ)
    (page : ℕ) : Type 0 where
  pub segment : Segment
  pub table : PageTable
  pub row : PageRow
  pub segment_in : list_get pcb.segment_table segment_number ≡ some segment
  pub table_in : get_page_table_by_index segment.index_page s ≡ some table
  pub page_in : list_get table.pages_list page_number ≡ some page
  pub row_in : get_elem? s.rows page ≡ some row
  pub absent : row.presence ≡ false
  pub owned : g.owner page ≡ some pcb.process_id
  pub active : g.active pcb.process_id ≡ true

-- The process has all its frames and there is an algorithm, or it has fewer and a frame is found.
abbrev pub CanTake :
    (c : MemoryConfig) (s : Memory) (g : Owners) (pid : ℤ) → HasClock c s g pid → Type 0
CanTake c s g pid h =
    ((length h.clock.frames_in_memory ≡ c.marcos_por_proceso) × IsAlgorithm c)
    ⊎ ((n : ℕ) × (length h.clock.frames_in_memory ≢ c.marcos_por_proceso)
        × (find_page_free c s.bitmap_memory ≡ some (pos n)))

pub take-Chosen :
    (c : MemoryConfig) (s : Memory) (g : Owners) (pid : ℤ) (h : HasClock c s g pid)
    → IsStore c s g
    → CanTake c s g pid h
    → Chosen c s g pid
take-Chosen c s g pid h w (inl (full, algorithm)) = full-Chosen c s g w pid h algorithm full
take-Chosen c s g pid h w (inr (n, short, found)) = free-Chosen c s g w pid h n short found

module _ (c : MemoryConfig) (s : Memory) (g : Owners) (pcb : Pcb) (segment_number page_number : ℤ)
    (page : ℕ) where
  -- What the request leaves.
  pub record Answered : Type 0 where
    pub frame : ℕ
    pub after : Memory
    pub result :
        solve_page_fault c pcb segment_number page_number s ≡ some (response_page_fault pcb, after)
    pub store : IsStore c after g
    pub same : (p : ℕ) → HasOwner g p → contents c after p ≡ contents c s p
    pub next :
        attend_cpu c (frame_request pcb page_number segment_number) after
        ≡ some (frame_response (pos frame), after)

  pub answered :
      IsMissing s g pcb segment_number page_number page
      → IsStore c s g
      → Chosen c s g pcb.process_id
      → Answered
  unfolding solve_page_fault attend_cpu get_frame_number_ram get_row set_struct_clock
  answered m w k =
      let o : HasOwner g page = (pcb.process_id, m.owned) in
      let (row, row_in, absent) = k.absent_kept page m.row o m.row_in m.absent in
      let x = k.mapped.pages page o in
      let place : pos x.position ≡ row.swap_position =
        sym x.position_eq
        ∙ ap (λ (y : PageRow). y.swap_position)
            (same_row k.after.rows page x.row row x.row_in row_in) in
      let (v, fetched, full) = read_page_swap_in_range c x.position k.after x.position_in in
      let fetched' = subst (λ z. read_page_swap c z k.after ≡ some v) place fetched in
      let (bytes, written) = write_frame_in_range c k.frame v k.after full k.frame_in.1 in
      let t =
        filled c s g pcb.process_id k page m.owned row row_in absent v bytes fetched' full
          written in
      record {
        frame = k.frame;
        after = t;
        result = rw (
          m.segment_in,
          m.table_in,
          m.page_in,
          k.result,
          load_page-filled c s g pcb.process_id k page m.owned row row_in absent v bytes fetched'
              full written,
        );
        store =
            filled-IsStore c s g pcb.process_id k page m.owned row row_in absent v bytes fetched'
              full written w;
        same =
            contents-load c s g pcb.process_id k page m.owned row row_in absent v bytes fetched'
              full written;
        next = rw (
          m.segment_in,
          table_kept m.segment.index_page t s k.tables_kept,
          m.table_in,
          m.page_in,
          row_out c s g pcb.process_id k page m.owned row row_in absent v bytes fetched' full
              written,
        );
      }

  -- A page fault is invisible to the processes. In a store, for a page of a living process that is
  -- in no frame, when the process can have one: the request is answered, what it leaves is a store,
  -- every page `p` of every process has the bytes that it had, and the CPU's next request for the
  -- page is answered with a frame.
  pub contents-solve_page_fault :
      (w : IsStore c s g)
      → (m : IsMissing s g pcb segment_number page_number page)
      → CanTake c s g pcb.process_id (w.clocks pcb.process_id m.active)
      → (p : ℕ) → HasOwner g p
      → (frame : ℕ) × (t : Memory) × (solve_page_fault c pcb segment_number page_number s
          ≡ some (response_page_fault pcb, t))
        × IsStore c t g
        × (contents c t p ≡ contents c s p)
        × (attend_cpu c (frame_request pcb page_number segment_number) t
            ≡ some (frame_response (pos frame), t))
  contents-solve_page_fault w m can p o =
      let a =
        answered m w (take-Chosen c s g pcb.process_id (w.clocks pcb.process_id m.active) w can) in
      (a.frame, a.after, a.result, a.store, a.same p o, a.next)
