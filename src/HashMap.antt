-- ===== src/HashMap.antt =====
-- std's HashMap: an association list, whose order no operation of the program reads.
pub mod Laws
use file_send.Prelude.{
  Key, nat_key, text_key, ite, Bool, true, false, Option, none, some, List, [], ◌∷◌,
}

abbrev pub HashMap {ℓ} : Type ℓ → Type ℓ → Type ℓ
HashMap K V = List (K × V)

module _ {ℓ} {K V : Type ℓ} ⦃key : Key K⦄ where
  unfoldable pub get : HashMap K V → K → Option V
  get [] k = none
  get ((j, v) ∷ m) k = ite (key.same j k) (some v) (get m k)

  unfoldable pub insert : HashMap K V → K → V → HashMap K V
  insert [] k v = (k, v) ∷ []
  insert ((j, w) ∷ m) k v = ite (key.same j k) ((k, v) ∷ m) ((j, w) ∷ insert m k v)

  unfoldable pub remove : HashMap K V → K → HashMap K V
  remove [] k = []
  remove ((j, w) ∷ m) k = ite (key.same j k) (remove m k) ((j, w) ∷ remove m k)

  unfoldable pub contains_key : HashMap K V → K → Bool
  contains_key m k = elim (get m k) [ none ↦ false | some v ↦ true ]
