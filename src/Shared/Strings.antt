-- ===== src/Shared/Strings.antt =====
-- C strings and the functions of <string.h> and <stdlib.h> that the modules call on them.
use Prim.Native.Char.{code}
use Prim.Native.String.{String}
use geck.Prelude.{
  negated, ℕ, ◌+◌, ◌-◌, ◌*◌, ◌≡◌, ◌↔◌, refl, ℤ, pos, negsuc, List, [], ◌∷◌, Bool, true, false, ◌&&◌,
  ◌||◌, ◌==◌, leb, if◌then◌else◌, arith,
}

-- The bytes before the terminator.
abbrev pub Text : Type 0
Text = List ℕ

-- The bytes of an ASCII literal. `String` has its own `[]` and `∷`.
abbrev pub codes : String → Text
codes String.[] = []
codes (String.◌∷◌ c s) = code c ∷ codes s

-- `strcmp(a, b) == 0`
unfoldable pub strcmp_eq : Text → Text → Bool
strcmp_eq [] [] = true
strcmp_eq [] (c ∷ t) = false
strcmp_eq (b ∷ s) [] = false
strcmp_eq (b ∷ s) (c ∷ t) = b == c && strcmp_eq s t

pub strcmp_eq_iff : (s t : Text) → (strcmp_eq s t ≡ true) ↔ (s ≡ t)
unfolding strcmp_eq
strcmp_eq_iff [] [] = ground arith
strcmp_eq_iff [] (c ∷ t) = ground arith
strcmp_eq_iff (b ∷ s) [] = ground arith
strcmp_eq_iff (b ∷ s) (c ∷ t) = ground (arith, strcmp_eq_iff s t)

abbrev pub is_space : ℕ → Bool
is_space c = c == 32 || (leb 9 c && leb c 13)

abbrev pub is_digit : ℕ → Bool
is_digit c = leb b'0' c && leb c b'9'

unfoldable pub digits_value : ℕ → Text → ℕ
digits_value acc [] = acc
digits_value acc (c ∷ t) =
    let more = digits_value (acc * 10 + (c - b'0')) t in if is_digit c then more else acc

unfoldable pub signed_value : Text → ℤ
unfolding digits_value
signed_value [] = pos 0
signed_value (c ∷ t) =
    if c == b'-'
    then negated (digits_value 0 t)
    else if c == b'+'
    then pos (digits_value 0 t)
    else pos (digits_value 0 (c ∷ t))

-- White space, a sign, then digits up to the first other character. What does not fit an `int` is
-- left by the C standard; here it is the number itself.
unfoldable pub atoi : Text → ℤ
unfolding signed_value
atoi [] = pos 0
atoi (c ∷ t) = let rest = atoi t in if is_space c then rest else signed_value (c ∷ t)

atoi_samples :
    (atoi (codes " -42 x") ≡ negsuc 41) × (atoi (codes "1024") ≡ pos 1024) × (atoi [] ≡ pos 0)
unfolding atoi
atoi_samples = (refl, refl, refl)
