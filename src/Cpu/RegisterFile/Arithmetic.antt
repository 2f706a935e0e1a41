-- ===== src/Cpu/RegisterFile/Arithmetic.antt =====
-- What the arithmetic of cpu/src/cpu.c does to a register.
use geck.Prelude.{
  ℕ, ◌+◌, ◌%◌, ◌^◌, ◌<◌, pos, word, signed, IsInt, IsU32, word-signed, ◌≡◌, ◌≢◌, ◌⊎◌, inl, inr,
  false, refl, ◌∙◌, sym, Bool-cases, arith,
}
use geck.Shared.Strings.{Text, codes, strcmp_eq, strcmp_eq_iff, atoi}
use geck.Shared.{Registers}
use geck.Cpu.{Commons}
use geck.Cpu.RegisterFile.{
  add_u32, update_register, add_value_to_register, find_value_of_register, add_two_registers,
}

-- The names of the four registers.
abbrev pub IsRegister : Text → Type 0
IsRegister name =
    (name ≡ codes "AX") ⊎ ((name ≡ codes "BX") ⊎ ((name ≡ codes "CX") ⊎ (name ≡ codes "DX")))

-- Every register holds a word.
pub record IsRegisters (r : Registers) : Type 0 where
  pub ax : IsU32 r.ax
  pub bx : IsU32 r.bx
  pub cx : IsU32 r.cx
  pub dx : IsU32 r.dx

signed-IsInt : (w : ℕ) → IsU32 w → IsInt (signed w)
signed-IsInt w h = ground arith

find-update :
    (name : Text) (f : ℕ → ℕ) (r : Registers)
    → IsRegister name
    → find_value_of_register name (update_register name f r) ≡ f (find_value_of_register name r)
unfolding update_register find_value_of_register strcmp_eq
find-update name f r (inl e) = rw e refl
find-update name f r (inr (inl e)) = rw e refl
find-update name f r (inr (inr (inl e))) = rw e refl
find-update name f r (inr (inr (inr e))) = rw e refl

strcmp_ne : (s t : Text) → s ≢ t → strcmp_eq s t ≡ false
strcmp_ne s t h = elim (Bool-cases (strcmp_eq s t)) [
  | inl e ↦ absurd (h ((strcmp_eq_iff s t).0 e))
  | inr e ↦ e
]

find-update_ne :
    (name target : Text) (f : ℕ → ℕ) (r : Registers)
    → name ≢ target
    → IsRegister target
    → find_value_of_register name (update_register target f r) ≡ find_value_of_register name r
unfolding update_register find_value_of_register strcmp_eq
find-update_ne name target f r other (inl e) =
    rw e (rw (strcmp_ne name (codes "AX") (λ same. other (same ∙ sym e))) refl)
find-update_ne name target f r other (inr (inl e)) =
    rw e (rw (strcmp_ne name (codes "BX") (λ same. other (same ∙ sym e))) refl)
find-update_ne name target f r other (inr (inr (inl e))) =
    rw e (rw (strcmp_ne name (codes "CX") (λ same. other (same ∙ sym e))) refl)
find-update_ne name target f r other (inr (inr (inr e))) =
    rw e (rw (strcmp_ne name (codes "DX") (λ same. other (same ∙ sym e))) refl)

pub find-IsU32 :
    (name : Text) (r : Registers) → IsRegisters r → IsU32 (find_value_of_register name r)
unfolding find_value_of_register
find-IsU32 name r h = ground (arith, h.ax, h.bx, h.cx, h.dx)

-- What adding a number to a register leaves in it and in the others.
pub add_value_to_register_lem :
    (name text other : Text) (value : ℕ) (r : Registers)
    → IsRegister name
    → atoi text ≡ pos value
    → value < 2 ^ 31
    → other ≢ name
    → (find_value_of_register name (add_value_to_register name text r)
        ≡ (find_value_of_register name r + value) % 2 ^ 32)
      × (find_value_of_register other (add_value_to_register name text r)
          ≡ find_value_of_register other r)
unfolding add_value_to_register
add_value_to_register_lem name text other value r known parsed small apart = (
  rw (find-update name (λ old. add_u32 old (word (atoi text))) r known, parsed) (omega arith),
  find-update_ne other name (λ old. add_u32 old (word (atoi text))) r apart known,
)

-- ADD of two registers is addition modulo 2^32: the source's value, printed as an `int` and read
-- back, loses nothing, and no other register changes.
pub add_two_registers_lem :
    (lib : Commons) (target source other : Text) (r : Registers)
    → IsRegister target
    → IsRegister source
    → IsRegisters r
    → (atoi (lib.string_itoa (signed (find_value_of_register source r)))
        ≡ signed (find_value_of_register source r))
    → other ≢ target
    → (find_value_of_register target (add_two_registers lib target source r)
        ≡ (find_value_of_register target r + find_value_of_register source r) % 2 ^ 32)
      × (find_value_of_register other (add_two_registers lib target source r)
          ≡ find_value_of_register other r)
unfolding add_two_registers add_value_to_register
add_two_registers_lem lib target source other r known_target known_source words printed apart = (
  rw
      (
        find-update target
            (λ old.
              add_u32 old
                (word (atoi (lib.string_itoa (signed (find_value_of_register source r))))))
            r known_target,
        printed,
        word-signed (find_value_of_register source r) (find-IsU32 source r words),
      )
      refl,
  find-update_ne other target
      (λ old.
        add_u32 old (word (atoi (lib.string_itoa (signed (find_value_of_register source r))))))
      r apart known_target,
)
