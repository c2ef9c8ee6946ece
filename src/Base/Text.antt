-- ===== src/Base/Text.antt =====
-- C strings as the lists of their bytes before the terminating NUL, and the functions of string.h
-- that the sources call on them.
use Prim.Native.Char.{code}
use Prim.Native.Nat.{ℕ}
use Prim.Native.String.{String}
use mathlib.Core.Path.{◌≡◌, refl}
use mathlib.Core.Logic.{◌↔◌}
use mathlib.Core.Bool.{Bool, true, false, ◌&&◌, ◌||◌}
use mathlib.Core.List.{List, [], ◌∷◌, ◌++◌}
use native.Mathlib.Omega.{arith}
use spovm4_labs.Base.Tests.{◌==◌, if◌then◌else◌}

abbrev pub Text : Type 0
Text = List ℕ

-- `strcmp(s, t) == 0`
unfoldable pub str_eq : Text → Text → Bool
str_eq [] [] = true
str_eq [] (d ∷ t) = false
str_eq (c ∷ s) [] = false
str_eq (c ∷ s) (d ∷ t) = c == d && str_eq s t

pub str_eq_refl : (s : Text) → str_eq s s ≡ true
unfolding str_eq
str_eq_refl [] = refl
str_eq_refl (c ∷ s) = ground (arith, str_eq_refl s)

pub str_eq_sound : (s t : Text) → str_eq s t ≡ true → s ≡ t
unfolding str_eq
str_eq_sound [] [] h = refl
str_eq_sound [] (d ∷ t) h = cc
str_eq_sound (c ∷ s) [] h = cc
str_eq_sound (c ∷ s) (d ∷ t) h = ground (arith, str_eq_sound s t)

-- The test is equality of texts.
pub str_eq_iff : (s t : Text) → (str_eq s t ≡ true) ↔ (s ≡ t)
str_eq_iff s t = (str_eq_sound s t, λ e. rw e (str_eq_refl t))

abbrev pub starts_with : Text → Text → Bool
starts_with s [] = true
starts_with [] (d ∷ t) = false
starts_with (c ∷ s) (d ∷ t) = c == d && starts_with s t

-- `strstr(s, t) != NULL`
abbrev pub has_text : Text → Text → Bool
has_text [] t = starts_with [] t
has_text (c ∷ s) t = starts_with (c ∷ s) t || has_text s t

-- The token that `strtok` has collected, if it is not empty, in front of the others.
abbrev pub emit : Text → List Text → List Text
emit [] ts = ts
emit (c ∷ s) ts = (c ∷ s) ∷ ts

-- The tokens that `strtok(s, sep)` and `strtok(NULL, sep)` return in turn for a separator of one
-- byte, `token` being the part of the current one that has been read.
unfoldable pub strtok_from : ℕ → Text → Text → List Text
strtok_from sep token [] = emit token []
strtok_from sep token (c ∷ s) = elim (c == sep) [
  | true ↦ emit token (strtok_from sep [] s)
  | false ↦ strtok_from sep (token ++ c ∷ []) s
]

unfoldable pub strtok : ℕ → Text → List Text
unfolding strtok_from
strtok sep s = strtok_from sep [] s

-- A C string in memory ends at its first NUL.
abbrev pub c_string : List ℕ → Text
c_string [] = []
c_string (c ∷ s) = if c == 0 then [] else c ∷ c_string s

-- the bytes of an ASCII text
abbrev pub codes : String → Text
codes String.[] = []
codes (String.◌∷◌ c s) = code c ∷ codes s
