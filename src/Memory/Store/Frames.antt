-- ===== src/Memory/Store/Frames.antt =====
-- Frames of the principal memory, and pages of the swap file, do not overlap.
use geck.Prelude.{
  ℕ, ◌+◌, ◌*◌, ◌≤◌, ◌≡◌, ◌≢◌, ◌⊎◌, inl, inr, ap, ◌∙◌, pos, List, Option, some, length, ◌>>=◌,
  >>=-eq-some, arith,
}
use native.Mathlib.Decide.{dec_lt}
use geck.Memory.{MemoryConfig, Memory}
use geck.Memory.Store.{read_frame, write_frame, write_slice}
use geck.Memory.Store.Slices.{read-write_slice_ne, length-write_slice}

-- Two pages of the swap file, or two frames, do not overlap.
pub other_page :
    (size p q n : ℕ) → n ≡ size → p ≢ q → (q * size + size ≤ p * size) ⊎ (p * size + n ≤ q * size)
other_page size p q n e ne = elim (dec_lt q p) [
  | yes lt ↦ inl (grind arith)
  | no ge ↦ inr (grind arith)
]

module _ (c : MemoryConfig) (frame : ℕ) (v : List ℕ) (s : Memory) (bytes : List ℕ) where
  frame_slice :
      write_frame c (pos frame) v s ≡ some (record s { principal_memory = bytes })
      → write_slice s.principal_memory (frame * c.tam_pagina) v ≡ some bytes
  unfolding write_frame
  frame_slice e =
      let (out, written, e') =
        >>=-eq-some (write_slice s.principal_memory (frame * c.tam_pagina) v) _ e in
      written ∙ ap (λ (m : Option Memory). m >>= λ m'. some m'.principal_memory) e'

  pub length-write_frame :
      write_frame c (pos frame) v s ≡ some (record s { principal_memory = bytes })
      → length bytes ≡ length s.principal_memory
  length-write_frame e =
      length-write_slice s.principal_memory (frame * c.tam_pagina) v bytes (frame_slice e)

  -- Another frame reads the same after the write, whatever else changes.
  pub read-write_frame_ne :
      (other : ℕ) (t : Memory)
      → length v ≡ c.tam_pagina
      → write_frame c (pos frame) v s ≡ some (record s { principal_memory = bytes })
      → t.principal_memory ≡ bytes
      → frame ≢ other
      → read_frame c (pos other) t ≡ read_frame c (pos other) s
  unfolding read_frame
  read-write_frame_ne other t l e same ne = rw same (
      read-write_slice_ne s.principal_memory (frame * c.tam_pagina) v bytes (other * c.tam_pagina)
        c.tam_pagina (frame_slice e) (other_page c.tam_pagina frame other (length v) l ne))
