-- ===== src/Memory/Bitmap.antt =====
-- The bitmaps of memoria/src/memoria.c: `create_bitmap` and `find_page_free`. A `t_bitarray` is the
-- list of its bits; to test or to write a bit past its end is a fault.
pub mod Free
use geck.Prelude.{
  ℕ, zero, suc, ◌*◌, ◌/◌, ℤ, pos, negsuc, List, [], ◌∷◌, Bool, true, false, Option, none, some,
  if◌then◌else◌, length, ltb, set, replicate, guard, ◌>>=◌, ◌>>◌,
}
use geck.Memory.{MemoryConfig}

-- `entries` bytes of clean bits.
unfoldable pub create_bitmap : ℕ → List Bool
create_bitmap entries = replicate (entries * 8) false

abbrev write_bit : Bool → List Bool → ℤ → Option (List Bool)
write_bit b bitmap (pos i) = do guard (ltb i (length bitmap)); some (set bitmap i b)
write_bit b bitmap (negsuc i) = none

-- `bitarray_set_bit` and `bitarray_clean_bit`
unfoldable pub set_bit : List Bool → ℤ → Option (List Bool)
set_bit = write_bit true

unfoldable pub clean_bit : List Bool → ℤ → Option (List Bool)
clean_bit = write_bit false

-- The loop of `find_page_free`: the rounds left, the index, and the bits from that index on.
unfoldable pub find_from : ℕ → ℕ → List Bool → Option ℤ
find_from zero i bits = some (negsuc 0)
find_from (suc n) i [] = none
find_from (suc n) i (b ∷ bits) = if b then find_from n (suc i) bits else some (pos i)

-- The first clean bit, or -1. The bound is that of the swap file, whatever the bitmap.
unfoldable pub find_page_free : MemoryConfig → List Bool → Option ℤ
find_page_free c bitmap = find_from (c.tamanio_swap / c.tam_pagina) 0 bitmap
