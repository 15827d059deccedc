-- ===== src/HashMap/Laws.antt =====
-- What a read answers after a write: all that the program's maps are used for.
use file_send.Prelude.{
  Key, nat_key, text_key, ◌≡◌, refl, ◌↔◌, ite, false, none, some, [], ◌∷◌, arith,
}
use mathlib.Core.Path.{subst₂}
use file_send.HashMap.{HashMap, get, insert, remove, contains_key}

module _ {ℓ} {K V : Type ℓ} ⦃key : Key K⦄ where
  pub get-insert :
      (m : HashMap K V) (k j : K) (v : V)
      → get (insert m k v) j ≡ ite (key.same k j) (some v) (get m j)
  unfolding get insert
  get-insert [] k j v = refl
  get-insert ((i, w) ∷ m) k j v = ground (arith, get-insert m k j v)

  pub get-remove :
      (m : HashMap K V) (k j : K) → get (remove m k) j ≡ ite (key.same k j) none (get m j)
  unfolding get remove
  get-remove [] k j = ground arith
  get-remove ((i, w) ∷ m) k j = ground (arith, get-remove m k j)

  -- A predicate on the entries that a map holds.
  abbrev pub Entries {κ} : (K → V → Type κ) → HashMap K V → Type (ℓ ⊔ κ)
  Entries P m = (k : K) (v : V) → get m k ≡ some v → P k v

  pub Entries-insert {κ} :
      (P : K → V → Type κ) (m : HashMap K V) (k : K) (v : V)
      → Entries P m
      → P k v
      → Entries P (insert m k v)
  Entries-insert P m k v h p j w e = elim (key.same k j) [
    | yes q ↦ let e' : v ≡ w = ground (arith, get-insert m k j v) in subst₂ P q e' p
    | no q ↦ h j w (ground (arith, get-insert m k j v))
  ]

  pub Entries-remove {κ} :
      (P : K → V → Type κ) (m : HashMap K V) (k : K) → Entries P m → Entries P (remove m k)
  Entries-remove P m k h j w e = h j w (ground (arith, get-remove m k j))

  pub contains_key-iff_get :
      (m : HashMap K V) (k : K) → (contains_key m k ≡ false) ↔ (get m k ≡ none)
  unfolding contains_key
  contains_key-iff_get m k = ground arith
