-- ===== src/Memory/Store.antt =====
-- The bytes of memoria/src/memoria.c: frames of the principal memory, pages of the swap file, and
-- the words that MOV_IN and MOV_OUT move. Accesses out of range are faults.
pub mod Slices
pub mod Frames
pub mod Splice
use geck.Prelude.{
  ℕ, zero, suc, ◌+◌, ◌*◌, ℤ, pos, negsuc, List, [], ◌∷◌, ◌++◌, Bool, Option, none, some, length,
  leb, take, drop, guard, ◌>>=◌, ◌>>◌,
}
use geck.Shared.Wire.{word_bytes, read_uint32}
use geck.Memory.{MemoryConfig, Memory}

-- `n` bytes from an offset.
unfoldable pub read_slice : List ℕ → ℕ → ℕ → Option (List ℕ)
read_slice bytes offset n = do
  guard (leb (offset + n) (length bytes))
  some (take n (drop offset bytes))

-- Bytes written over those at an offset.
unfoldable pub write_slice : List ℕ → ℕ → List ℕ → Option (List ℕ)
write_slice bytes offset value = do
  guard (leb (offset + length value) (length bytes))
  some (take offset bytes ++ (value ++ drop (offset + length value) bytes))

abbrev pub natural : ℤ → Option ℕ
natural (pos n) = some n
natural (negsuc n) = none

-- `fseek` to the page and `fread` of one page.
unfoldable pub read_page_swap : MemoryConfig → ℤ → Memory → Option (List ℕ)
read_page_swap c position s = do
  n ← natural position
  read_slice s.swap_file (n * c.tam_pagina) c.tam_pagina

-- `fseek` to the page and `fwrite` of one page.
unfoldable pub write_page_swap : MemoryConfig → ℤ → List ℕ → Memory → Option Memory
write_page_swap c position value s = do
  n ← natural position
  file ← write_slice s.swap_file (n * c.tam_pagina) value
  some (record s { swap_file = file })

-- `memcpy` from and to a frame.
unfoldable pub read_frame : MemoryConfig → ℤ → Memory → Option (List ℕ)
read_frame c frame s = do
  n ← natural frame
  read_slice s.principal_memory (n * c.tam_pagina) c.tam_pagina

unfoldable pub write_frame : MemoryConfig → ℤ → List ℕ → Memory → Option Memory
write_frame c frame value s = do
  n ← natural frame
  bytes ← write_slice s.principal_memory (n * c.tam_pagina) value
  some (record s { principal_memory = bytes })

unfoldable pub read_value_in_principal_memory : ℤ → Memory → Option ℕ
read_value_in_principal_memory physical_address s = do
  n ← natural physical_address
  bytes ← read_slice s.principal_memory n 4
  (w, rest) ← read_uint32 bytes
  some w

-- The `memcpy` of `save_value_in_memory`.
unfoldable pub write_word : ℤ → ℕ → Memory → Option Memory
write_word physical_address value s = do
  n ← natural physical_address
  bytes ← write_slice s.principal_memory n (word_bytes value)
  some (record s { principal_memory = bytes })
