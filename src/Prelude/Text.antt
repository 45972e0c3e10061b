-- ===== src/Prelude/Text.antt =====
-- Texts: C strings and `std::string`s as lists of bytes.
use Prim.Native.Char.{code}
use Prim.Native.String.{String}
use mathlib.Core.Bool.{Bool, true, false, ◌&&◌}
use mathlib.Core.List.{[], ◌∷◌}
use xposed.Prelude.Lists.{Bytes}
use xposed.Prelude.Tests.{◌==◌}

-- The bytes of a literal in ASCII.
abbrev pub bytes_of : String → Bytes
bytes_of String.[] = []
bytes_of (String.◌∷◌ c s) = code c ∷ bytes_of s

-- `strcmp(s, t) == 0`.
abbrev pub eqb_text : Bytes → Bytes → Bool
eqb_text [] [] = true
eqb_text [] (y ∷ t) = false
eqb_text (x ∷ s) [] = false
eqb_text (x ∷ s) (y ∷ t) = (x == y) && eqb_text s t

-- Whether the second text starts with the first.
abbrev pub starts_with : Bytes → Bytes → Bool
starts_with [] s = true
starts_with (x ∷ p) [] = false
starts_with (x ∷ p) (y ∷ s) = (x == y) && starts_with p s
