-- ===== src/Memory/View.antt =====
-- What memoria/src/memoria.c promises of its pages: each has its bytes, whether a frame or the swap
-- file holds them. The view forgets where.
pub mod Change
pub mod Clocks
pub mod Evict
pub mod Choose
pub mod PutPage
pub mod Load
pub mod Fault
pub mod Write
pub mod Read
pub mod Moves
pub mod Extend
pub mod Grow
pub mod Segments
pub mod Init
pub mod Lookup
use geck.Prelude.{
  ℕ, ◌+◌, ◌*◌, ◌^◌, ◌≤◌, ◌<◌, ◌≡◌, ◌⊎◌, ℤ, pos, List, Bool, true, false, Option, some, length,
  get_elem?, if◌then◌else◌, ◌>>=◌,
}
use geck.Memory.{MemoryConfig, PageRow, ClockRow, ClockStruct, Memory}
use geck.Memory.Store.{read_page_swap, read_frame}

-- The bytes of a page: those of its frame when it is present, else those of its place in the swap
-- file.
unfoldable pub contents : MemoryConfig → Memory → ℕ → Option (List ℕ)
contents c s page = get_elem? s.rows page >>= λ row.
    if row.presence then read_frame c row.frame_number s else read_page_swap c row.swap_position s

-- Which process each page belongs to, and which processes live. The program does not keep this: the
-- rows and the clock of a process that has ended stay where they are.
pub record Owners : Type 0 where
  pub owner : ℕ → Option ℤ
  pub active : ℤ → Bool

abbrev pub HasOwner : Owners → ℕ → Type 0
HasOwner g page = (pid : ℤ) × (g.owner page ≡ some pid)

-- A page in a frame: the frame is taken and in range, and unless the page is modified its place in
-- the swap file holds the same bytes.
pub record IsResident (c : MemoryConfig) (s : Memory) (row : PageRow) (frame : ℕ) : Type 0 where
  pub present : row.presence ≡ true
  pub frame_eq : row.frame_number ≡ pos frame
  pub bit : get_elem? s.bitmap_memory frame ≡ some true
  pub frame_in : frame * c.tam_pagina + c.tam_pagina ≤ length s.principal_memory
  pub coherent :
      (row.modified ≡ true) ⊎ (read_page_swap c row.swap_position s ≡ read_frame c (pos frame) s)

-- A page with a place in the swap file that is taken, in a frame or not.
pub record IsPage (c : MemoryConfig) (s : Memory) (page : ℕ) : Type 0 where
  pub row : PageRow
  pub position : ℕ
  pub row_in : get_elem? s.rows page ≡ some row
  pub position_eq : row.swap_position ≡ pos position
  pub position_in : position * c.tam_pagina + c.tam_pagina ≤ length s.swap_file
  pub swap_bit : get_elem? s.bitmap_swap position ≡ some true
  pub place : (row.presence ≡ false) ⊎ ((frame : ℕ) × IsResident c s row frame)

-- All pages of the living processes: no two share a place in the swap file or a frame.
pub record IsPages (c : MemoryConfig) (s : Memory) (g : Owners) : Type 0 where
  pub pages : (p : ℕ) → HasOwner g p → IsPage c s p
  pub swap_apart :
      (p q : ℕ) (a b : PageRow)
      → HasOwner g p
      → HasOwner g q
      → get_elem? s.rows p ≡ some a
      → get_elem? s.rows q ≡ some b
      → a.swap_position ≡ b.swap_position
      → p ≡ q
  pub frame_apart :
      (p q : ℕ) (a b : PageRow)
      → HasOwner g p
      → HasOwner g q
      → get_elem? s.rows p ≡ some a
      → get_elem? s.rows q ≡ some b
      → a.presence ≡ true
      → b.presence ≡ true
      → a.frame_number ≡ b.frame_number
      → p ≡ q

-- An entry of a process's clock: a page of the process, present in the entry's frame.
pub record IsEntry (s : Memory) (g : Owners) (pid : ℤ) (entry : ClockRow) : Type 0 where
  pub owned : g.owner entry.page ≡ some pid
  pub row : PageRow
  pub row_in : get_elem? s.rows entry.page ≡ some row
  pub present : row.presence ≡ true
  pub frame_eq : row.frame_number ≡ entry.frame_number_in_memory

-- The frames of a clock are different.
abbrev pub Distinct : List ClockRow → Type 0
Distinct frames =
    (i j : ℕ) (a b : ClockRow)
    → get_elem? frames i ≡ some a
    → get_elem? frames j ≡ some b
    → a.frame_number_in_memory ≡ b.frame_number_in_memory
    → i ≡ j

pub record HasClock (c : MemoryConfig) (s : Memory) (g : Owners) (pid : ℤ) : Type 0 where
  pub clock : ClockStruct
  pub clock_in : s.clock_structures pid ≡ some clock
  pub within : length clock.frames_in_memory ≤ c.marcos_por_proceso
  pub pointer_in : clock.pointer < c.marcos_por_proceso
  pub entries :
      (i : ℕ) (entry : ClockRow)
      → get_elem? clock.frames_in_memory i ≡ some entry
      → IsEntry s g pid entry
  pub distinct : Distinct clock.frames_in_memory

-- The state of the module between two requests.
pub record IsStore (c : MemoryConfig) (s : Memory) (g : Owners) : Type 0 where
  pub sized : length s.bitmap_memory * c.tam_pagina ≤ length s.principal_memory
  pub swap_sized : length s.bitmap_swap * c.tam_pagina ≤ length s.swap_file
  pub small : c.marcos_por_proceso ≤ 2 ^ 16
  pub mapped : IsPages c s g
  pub clocks : (pid : ℤ) → g.active pid ≡ true → HasClock c s g pid
