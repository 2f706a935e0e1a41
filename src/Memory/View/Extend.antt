-- ===== src/Memory/View/Extend.antt =====
-- A state with more pages: what was there stays as it is.
use geck.Prelude.{ℕ, ◌≡◌, inl, inr, refl, sym, ◌∙◌, ℤ, pos, true, some, length, get_elem?}
use geck.Memory.{MemoryConfig, PageRow, Memory}
use geck.Memory.Store.{read_page_swap}
use geck.Memory.View.{contents, Owners, HasOwner, IsPage, IsEntry, HasClock}
use geck.Memory.View.Change.{read_frame_same}

pub record Extends (s t : Memory) : Type 0 where
  pub rows_kept : (p : ℕ) (a : PageRow) → get_elem? s.rows p ≡ some a → get_elem? t.rows p ≡ some a
  pub memory_same : t.principal_memory ≡ s.principal_memory
  pub file_same : t.swap_file ≡ s.swap_file
  pub bits_same : t.bitmap_memory ≡ s.bitmap_memory
  pub swap_kept :
      (n : ℕ) → get_elem? s.bitmap_swap n ≡ some true → get_elem? t.bitmap_swap n ≡ some true
  pub swap_length : length t.bitmap_swap ≡ length s.bitmap_swap

pub Extends-refl : (s : Memory) → Extends s s
Extends-refl s = record {
  rows_kept = λ p a e. e;
  memory_same = refl;
  file_same = refl;
  bits_same = refl;
  swap_kept = λ n e. e;
  swap_length = refl;
}

pub Extends-trans : (s t u : Memory) → Extends s t → Extends t u → Extends s u
Extends-trans s t u h k = record {
  rows_kept = λ p a e. k.rows_kept p a (h.rows_kept p a e);
  memory_same = k.memory_same ∙ h.memory_same;
  file_same = k.file_same ∙ h.file_same;
  bits_same = k.bits_same ∙ h.bits_same;
  swap_kept = λ n e. k.swap_kept n (h.swap_kept n e);
  swap_length = k.swap_length ∙ h.swap_length;
}

read_page_swap_same :
    (c : MemoryConfig) (position : ℤ) (s t : Memory)
    → t.swap_file ≡ s.swap_file
    → read_page_swap c position t ≡ read_page_swap c position s
unfolding read_page_swap
read_page_swap_same c position s t e = rw e

module _ (c : MemoryConfig) (s t : Memory) (h : Extends s t) where
  pub IsPage-Extends : (p : ℕ) → IsPage c s p → IsPage c t p
  IsPage-Extends p x = record {
    row = x.row;
    position = x.position;
    row_in = h.rows_kept p x.row x.row_in;
    position_eq = x.position_eq;
    position_in = rw h.file_same x.position_in;
    swap_bit = h.swap_kept x.position x.swap_bit;
    place = elim x.place [
      | inl absent ↦ inl absent
      | inr (frame, r) ↦ inr (
        frame,
        record {
          present = r.present;
          frame_eq = r.frame_eq;
          bit = rw h.bits_same r.bit;
          frame_in = rw h.memory_same r.frame_in;
          coherent = elim r.coherent [
            | inl dirty ↦ inl dirty
            | inr same ↦ inr (
                read_page_swap_same c x.row.swap_position s t h.file_same
                ∙ same
                ∙ sym (read_frame_same c (pos frame) s t h.memory_same))
          ];
        },
      )
    ];
  }

  pub contents-Extends : (p : ℕ) → IsPage c s p → contents c t p ≡ contents c s p
  unfolding contents
  contents-Extends p x =
      rw
        (
          h.rows_kept p x.row x.row_in,
          x.row_in,
          read_frame_same c x.row.frame_number s t h.memory_same,
          read_page_swap_same c x.row.swap_position s t h.file_same,
        )
        refl

  -- The clock of a process whose pages are still its own.
  pub HasClock-Extends :
      (g g' : Owners) (pid : ℤ)
      → ((p : ℕ) → HasOwner g p → g'.owner p ≡ g.owner p)
      → t.clock_structures pid ≡ s.clock_structures pid
      → HasClock c s g pid
      → HasClock c t g' pid
  HasClock-Extends g g' pid same clocks k = record {
    clock = k.clock;
    clock_in = clocks ∙ k.clock_in;
    within = k.within;
    pointer_in = k.pointer_in;
    entries = λ i entry e.
        let x = k.entries i entry e in
        let mine : IsEntry t g' pid entry = record {
          owned = same entry.page (pid, x.owned) ∙ x.owned;
          row = x.row;
          row_in = h.rows_kept entry.page x.row x.row_in;
          present = x.present;
          frame_eq = x.frame_eq;
        } in
        mine;
    distinct = k.distinct;
  }
