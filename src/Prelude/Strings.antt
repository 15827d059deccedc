-- ===== src/Prelude/Strings.antt =====
-- Text as its code points, and equality of texts.
use Prim.Native.Nat.{ℕ, zero, suc, ◌+◌, ◌/◌, ◌%◌}
use Prim.Native.Char.{code}
use Prim.Native.String.{String}
use file_send.Prelude.Tests.{◌==◌, if◌then◌else◌}
use mathlib.Core.List.{List, [], ◌∷◌}

abbrev pub Text : Type 0
Text = List ℕ

-- The code points of a literal.
abbrev pub text : String → Text
text String.[] = []
text (String.◌∷◌ c s) = code c ∷ text s

-- `{}` of an unsigned number: the digits of its tenths, then its last one.
digits : ℕ → ℕ → Text → Text
digits zero n out = out
digits (suc fuel) n out =
    let shown = (48 + n % 10) ∷ out in
    let rest = digits fuel (n / 10) shown in if n / 10 == 0 then shown else rest

unfoldable pub decimal : ℕ → Text
unfolding digits
decimal n = digits (n + 1) n []
