-- ===== src/Prelude/Chars.antt =====
-- What the program uses of Rust's `char` and of trimming, on code points.
use Prim.Native.Nat.{ℕ, ◌≤◌}
use mathlib.Core.Bool.{Bool, ◌&&◌, ◌||◌}
use mathlib.Core.List.{[], ◌∷◌}
use native.Mathlib.Omega.{arith}
use clip_bridge.Prelude.Tests.{leb, nat_beq, if◌then◌else◌}
use clip_bridge.Prelude.Lists.{length, is_empty}
use clip_bridge.Prelude.Strings.{Text}

-- `char::is_control`: the category Cc.
unfoldable pub is_control : ℕ → Bool
is_control c = leb c 31 || (leb 127 c && leb c 159)

-- `char::is_whitespace`: the property White_Space.
unfoldable pub is_whitespace : ℕ → Bool
is_whitespace c =
    (leb 9 c && leb c 13)
    || nat_beq c 32
    || nat_beq c 133
    || nat_beq c 160
    || nat_beq c 5760
    || (leb 8192 c && leb c 8202)
    || nat_beq c 8232
    || nat_beq c 8233
    || nat_beq c 8239
    || nat_beq c 8287
    || nat_beq c 12288

unfoldable pub trim_start : (ℕ → Bool) → Text → Text
trim_start p [] = []
trim_start p (c ∷ s) = let rest = trim_start p s in if p c then rest else c ∷ s

unfoldable pub trim_end : (ℕ → Bool) → Text → Text
trim_end p [] = []
trim_end p (c ∷ s) = let rest = trim_end p s in if is_empty rest && p c then [] else c ∷ rest

-- `trim_matches`, and with `is_whitespace` `trim`.
unfoldable pub trim_matches : (ℕ → Bool) → Text → Text
unfolding trim_start trim_end
trim_matches p s = trim_end p (trim_start p s)

pub length-trim_start : (p : ℕ → Bool) (s : Text) → length (trim_start p s) ≤ length s
unfolding trim_start
length-trim_start p [] = omega arith
length-trim_start p (c ∷ s) = ground (arith, length-trim_start p s)

pub length-trim_end : (p : ℕ → Bool) (s : Text) → length (trim_end p s) ≤ length s
unfolding trim_end
length-trim_end p [] = omega arith
length-trim_end p (c ∷ s) = ground (arith, length-trim_end p s)
