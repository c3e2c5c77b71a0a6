-- ===== src/Prelude/Strings.antt =====
-- A Rust `String` as the list of its code points.
use Prim.Native.Nat.{ℕ}
use Prim.Native.Char.{code}
use Prim.Native.String.{String}
use mathlib.Core.Bool.{Bool, true, false, ◌&&◌}
use mathlib.Core.List.{List, [], ◌∷◌}
use clip_bridge.Prelude.Tests.{ltb, if◌then◌else◌, nat_beq}
use clip_bridge.Prelude.Equality.{nat_eq, list_eq}

abbrev pub Text : Type 0
Text = List ℕ

-- The code points of a literal.
abbrev pub codes : String → Text
codes String.[] = []
codes (String.◌∷◌ c s) = code c ∷ codes s

-- `a < b` on strings: byte order, which on UTF-8 is the order of the code points.
unfoldable pub text_lt : Text → Text → Bool
text_lt [] [] = false
text_lt [] (y ∷ ys) = true
text_lt (x ∷ xs) [] = false
text_lt (x ∷ xs) (y ∷ ys) =
    let rest = text_lt xs ys in if ltb x y then true else if nat_beq x y then rest else false

-- `s.starts_with(p)`
unfoldable pub starts_with : Text → Text → Bool
starts_with s [] = true
starts_with [] (y ∷ ys) = false
starts_with (x ∷ xs) (y ∷ ys) = nat_beq x y && starts_with xs ys
