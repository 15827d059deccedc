-- ===== src/Prelude/Lists.antt =====
-- Lists over the native numbers: std's `Vec` and its iterators.
use Prim.Native.Nat.{ℕ, zero, suc, ◌+◌, ◌≤◌}
use mathlib.Core.Path.{◌≡◌, refl, ap}
use mathlib.Core.Bool.{Bool, true, false, not, ◌&&◌, ◌||◌}
use mathlib.Core.List.{List, [], ◌∷◌, ◌++◌}
use mathlib.Core.Option.{Option, none, some}
use native.Mathlib.Omega.{arith}
use file_send.Prelude.Tests.{◌==◌, if◌then◌else◌}

module _ {ℓ} {A : Type ℓ} where
  abbrev pub length : List A → ℕ
  length [] = 0
  length (x ∷ xs) = suc (length xs)

  abbrev pub take : ℕ → List A → List A
  take zero xs = []
  take (suc n) [] = []
  take (suc n) (x ∷ xs) = x ∷ take n xs

  abbrev pub drop : ℕ → List A → List A
  drop zero xs = xs
  drop (suc n) [] = []
  drop (suc n) (x ∷ xs) = drop n xs

  abbrev pub get_elem? : List A → ℕ → Option A
  get_elem? [] i = none
  get_elem? (x ∷ xs) zero = some x
  get_elem? (x ∷ xs) (suc i) = get_elem? xs i

  abbrev pub is_empty : List A → Bool
  is_empty [] = true
  is_empty (x ∷ xs) = false

  abbrev pub first : List A → Option A
  first [] = none
  first (x ∷ xs) = some x

  -- `Vec::retain` keeps the elements that pass the test.
  unfoldable pub retain : (A → Bool) → List A → List A
  retain p [] = []
  retain p (x ∷ xs) = if p x then x ∷ retain p xs else retain p xs

  -- `Iterator::find`: the first element that passes the test.
  unfoldable pub find : (A → Bool) → List A → Option A
  find p [] = none
  find p (x ∷ xs) = if p x then some x else find p xs

  -- `Iterator::all`.
  abbrev pub All {κ} : (A → Type κ) → List A → Type κ
  All P [] = Unit
  All P (x ∷ xs) = P x × All P xs

  pub length-append : (xs ys : List A) → length (xs ++ ys) ≡ length xs + length ys
  length-append [] ys = omega arith
  length-append (x ∷ xs) ys = omega (arith, length-append xs ys)

  pub get_elem?-middle :
      (xs : List A) (y : A) (ys : List A) → get_elem? (xs ++ y ∷ ys) (length xs) ≡ some y
  get_elem?-middle [] y ys = refl
  get_elem?-middle (x ∷ xs) y ys = get_elem?-middle xs y ys

  -- A list that is long enough starts with a list of the given length.
  pub split_at :
      (n : ℕ) (xs : List A) → n ≤ length xs → (ys zs : List A) × (xs ≡ ys ++ zs) × (length ys ≡ n)
  split_at zero xs h = ([], xs, refl, refl)
  split_at (suc n) [] h = absurd (omega arith)
  split_at (suc n) (x ∷ xs) h =
      let (ys, zs, e, long) = split_at n xs (omega arith) in (x ∷ ys, zs, cc, omega arith)

  pub take-append : (xs ys : List A) → take (length xs) (xs ++ ys) ≡ xs
  take-append [] ys = refl
  take-append (x ∷ xs) ys = ap (x ∷◌) (take-append xs ys)

  pub drop-append : (xs ys : List A) → drop (length xs) (xs ++ ys) ≡ ys
  drop-append [] ys = refl
  drop-append (x ∷ xs) ys = drop-append xs ys

  pub length-retain-le : (p : A → Bool) (xs : List A) → length (retain p xs) ≤ length xs
  unfolding retain
  length-retain-le p [] = omega arith
  length-retain-le p (x ∷ xs) = ground (arith, length-retain-le p xs)

  pub retain-append :
      (p : A → Bool) (xs ys : List A) → retain p (xs ++ ys) ≡ retain p xs ++ retain p ys
  unfolding retain
  retain-append p [] ys = refl
  retain-append p (x ∷ xs) ys = ground (arith, retain-append p xs ys)

  pub All-append {κ} : (P : A → Type κ) (xs ys : List A) → All P xs → All P ys → All P (xs ++ ys)
  All-append P [] ys hx hy = hy
  All-append P (x ∷ xs) ys hx hy = (hx.0, All-append P xs ys hx.1 hy)

-- `contains` on a vector of numbers.
unfoldable pub contains : List ℕ → ℕ → Bool
contains [] a = false
contains (x ∷ xs) a = x == a || contains xs a

pub contains-append :
    (xs ys : List ℕ) (a : ℕ) → contains (xs ++ ys) a ≡ contains xs a || contains ys a
unfolding contains
contains-append [] ys a = refl
contains-append (x ∷ xs) ys a = ground (arith, contains-append xs ys a)

-- Everything but one number.
abbrev pub others : ℕ → ℕ → Bool
others a x = not (x == a)

pub contains-retain-others :
    (xs : List ℕ) (a b : ℕ) → contains (retain (others a) xs) b ≡ contains xs b && not (b == a)
unfolding contains retain
contains-retain-others [] a b = refl
contains-retain-others (x ∷ xs) a b = ground (arith, contains-retain-others xs a b)

pub find-others-contains :
    (xs : List ℕ) (a b : ℕ) → find (others a) xs ≡ some b → contains xs b ≡ true
unfolding contains find
find-others-contains [] a b h = ground arith
find-others-contains (x ∷ xs) a b h = ground (arith, find-others-contains xs a b)

pub contains-nil : (a : ℕ) → contains [] a ≡ false
unfolding contains
contains-nil a = refl

pub contains-single : (x a : ℕ) → contains (x ∷ []) a ≡ x == a
unfolding contains
contains-single x a = ground arith

pub first-retain {ℓ} : {A : Type ℓ} (p : A → Bool) (xs : List A) → first (retain p xs) ≡ find p xs
unfolding retain find
first-retain p [] = refl
first-retain p (x ∷ xs) = ground (arith, first-retain p xs)

-- In a list of at most two, the first element that is not `b` is the other one.
pub find-others-pair :
    (xs : List ℕ) (a b : ℕ)
    → length xs ≤ 2
    → contains xs a ≡ true
    → contains xs b ≡ true
    → (a == b) ≡ false
    → find (others b) xs ≡ some a
unfolding contains find
find-others-pair [] a b few ha hb ne = ground arith
find-others-pair (x ∷ []) a b few ha hb ne = ground arith
find-others-pair (x ∷ y ∷ []) a b few ha hb ne = ground arith
find-others-pair (x ∷ y ∷ z ∷ xs) a b few ha hb ne = absurd (omega arith)

pub find-others-ne : (xs : List ℕ) (a b : ℕ) → find (others a) xs ≡ some b → (a == b) ≡ false
unfolding find
find-others-ne [] a b h = ground arith
find-others-ne (x ∷ xs) a b h = ground (arith, find-others-ne xs a b)
