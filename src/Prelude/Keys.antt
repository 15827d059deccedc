-- ===== src/Prelude/Keys.antt =====
-- The keys of std's collections: types whose equality is decided (`Eq + Hash`).
use Prim.Native.Nat.{ℕ}
use mathlib.Core.Path.{refl}
use mathlib.Core.List.{[], ◌∷◌}
use native.Mathlib.Decide.{ℕ_discrete}
use file_send.Prelude.Strings.{Text}

pub record Key {ℓ} (K : Type ℓ) : Type ℓ where
  pub same : Discrete K

-- Two texts are equal when their code points are.
unfoldable pub Text-discrete : Discrete Text
unfolding ℕ_discrete
Text-discrete [] [] = yes refl
Text-discrete [] (y ∷ ys) = no (λ e. cc)
Text-discrete (x ∷ xs) [] = no (λ e. cc)
Text-discrete (x ∷ xs) (y ∷ ys) = elim (ℕ_discrete x y) [
  | yes p ↦ elim (Text-discrete xs ys) [ yes q ↦ yes (cc) | no q ↦ no (λ e. q (cc)) ]
  | no p ↦ no (λ e. p (cc))
]

instance abbrev pub nat_key : Key ℕ
nat_key = record { same = ℕ_discrete }

instance abbrev pub text_key : Key Text
text_key = record { same = Text-discrete }
