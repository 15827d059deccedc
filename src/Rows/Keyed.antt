-- ===== src/Rows/Keyed.antt =====
-- The rows of rows.rs have different keys, as its first comment says.
use file_send.Float.{F64}
use file_send.Rows.Changes.{
  Change, offer_in, progress_in, complete_in, progress_out, add_out, offer_out, rejected_out,
  cancelled_out, connection_lost, accept_in, decline_in, cancel_in, accept_all_in, apply,
}
use file_send.Prelude.{
  Bool-cases, retain, nat_key, text_key, ℕ, ◌≡◌, refl, ◌∙◌, inl, inr, Bool, true, false, ◌||◌, List,
  [], ◌∷◌, ◌++◌, map, arith,
}
use file_send.Rows.{
  Row, matches, modify, upsert, mark_offered, mark_rejected, mark_cancelled_remote, cancel_active,
  mark_all_active_cancelled, accept, decline, cancel, accept_one, accept_all, incoming_offer,
  recv_progress, recv_complete, send_progress, push_outgoing_pending,
}
use file_send.Rows.Lookup.{same_key, same_key-sym, Keeps, matches-same_key, matches-Keeps}

module _ {F : Type 0} where
  unfoldable pub has : List (Row F) → ℕ → Bool → Bool
  has [] j c = false
  has (r ∷ rs) j c = matches j c r || has rs j c

  -- No two rows have one key.
  unfoldable pub IsKeyed : List (Row F) → Type 0
  IsKeyed [] = Unit
  IsKeyed (r ∷ rs) = (has rs r.id r.incoming ≡ false) × IsKeyed rs

  pub has-modify :
      (list : List (Row F)) (i : ℕ) (b : Bool) (change : Row F → Row F) (j : ℕ) (c : Bool)
      → Keeps change
      → has (modify list i b change) j c ≡ has list j c
  unfolding has modify
  has-modify [] i b change j c keeps = refl
  has-modify (r ∷ rs) i b change j c keeps =
      ground (arith, has-modify rs i b change j c keeps, matches-Keeps change j c r keeps)

  pub has-upsert :
      (list : List (Row F)) (i : ℕ) (b : Bool) (make : Row F) (change : Row F → Row F)
      → (j : ℕ) (c : Bool) → matches i b make ≡ true
      → Keeps change
      → same_key i b j c ≡ false
      → has (upsert list i b make change) j c ≡ has list j c
  unfolding has upsert
  has-upsert [] i b make change j c made keeps apart =
      rw (matches-Keeps change j c make keeps, matches-same_key i b j c make made, apart) refl
  has-upsert (r ∷ rs) i b make change j c made keeps apart =
      ground (
        arith,
        has-upsert rs i b make change j c made keeps apart,
        matches-Keeps change j c r keeps,
      )

  pub has-map :
      (list : List (Row F)) (change : Row F → Row F) (j : ℕ) (c : Bool)
      → Keeps change
      → has (map change list) j c ≡ has list j c
  unfolding has
  has-map [] change j c keeps = refl
  has-map (r ∷ rs) change j c keeps =
      ground (arith, has-map rs change j c keeps, matches-Keeps change j c r keeps)

  pub has-retain :
      (p : Row F → Bool) (list : List (Row F)) (j : ℕ) (c : Bool)
      → has list j c ≡ false
      → has (retain p list) j c ≡ false
  unfolding has retain
  has-retain p [] j c h = refl
  has-retain p (r ∷ rs) j c h = ground (arith, has-retain p rs j c)

  pub has-append :
      (list : List (Row F)) (r : Row F) (j : ℕ) (c : Bool)
      → has (list ++ r ∷ []) j c ≡ has list j c || matches j c r
  unfolding has
  has-append [] r j c = ground arith
  has-append (q ∷ qs) r j c = ground (arith, has-append qs r j c)

  -- A row's key after a change that keeps it.
  has-Keeps :
      (list : List (Row F)) (change : Row F → Row F) (r : Row F)
      → Keeps change
      → has list (change r).id (change r).incoming ≡ has list r.id r.incoming
  has-Keeps list change r keeps = cc ((keeps r).0, (keeps r).1)

  pub modify-IsKeyed :
      (list : List (Row F)) (i : ℕ) (b : Bool) (change : Row F → Row F)
      → Keeps change
      → IsKeyed list
      → IsKeyed (modify list i b change)
  unfolding IsKeyed modify
  modify-IsKeyed [] i b change keeps keyed = keyed
  modify-IsKeyed (r ∷ rs) i b change keeps (new, keyed) = elim (Bool-cases (matches i b r)) [
    | inl h ↦ rw (h) (has-Keeps rs change r keeps ∙ new, keyed)
    | inr h ↦ rw (h) (
      has-modify rs i b change r.id r.incoming keeps ∙ new,
      modify-IsKeyed rs i b change keeps keyed,
    )
  ]

  pub upsert-IsKeyed :
      (list : List (Row F)) (i : ℕ) (b : Bool) (make : Row F) (change : Row F → Row F)
      → matches i b make ≡ true
      → Keeps change
      → IsKeyed list
      → IsKeyed (upsert list i b make change)
  unfolding IsKeyed has upsert
  upsert-IsKeyed [] i b make change made keeps keyed = (refl, tt)
  upsert-IsKeyed (r ∷ rs) i b make change made keeps (new, keyed) =
      elim (Bool-cases (matches i b r)) [
        | inl h ↦ rw (h) (has-Keeps rs change r keeps ∙ new, keyed)
        | inr h ↦ rw (h) (
          has-upsert rs i b make change r.id r.incoming made keeps
                (same_key-sym i b r.id r.incoming ∙ h)
              ∙ new,
          upsert-IsKeyed rs i b make change made keeps keyed,
        )
      ]

  pub map-IsKeyed :
      (list : List (Row F)) (change : Row F → Row F)
      → Keeps change
      → IsKeyed list
      → IsKeyed (map change list)
  unfolding IsKeyed
  map-IsKeyed [] change keeps keyed = keyed
  map-IsKeyed (r ∷ rs) change keeps (new, keyed) = (
    has-Keeps _ change r keeps ∙ has-map rs change r.id r.incoming keeps ∙ new,
    map-IsKeyed rs change keeps keyed,
  )

  pub retain-IsKeyed :
      (p : Row F → Bool) (list : List (Row F)) → IsKeyed list → IsKeyed (retain p list)
  unfolding IsKeyed retain
  retain-IsKeyed p [] keyed = keyed
  retain-IsKeyed p (r ∷ rs) (new, keyed) = elim (Bool-cases (p r)) [
    | inl h ↦ rw (h) (has-retain p rs r.id r.incoming new, retain-IsKeyed p rs keyed)
    | inr h ↦ rw (h) (retain-IsKeyed p rs keyed)
  ]

  apart_append :
      (q : Row F) (qs : List (Row F)) (r : Row F)
      → has (q ∷ qs) r.id r.incoming ≡ false
      → has qs q.id q.incoming ≡ false
      → has (qs ++ r ∷ []) q.id q.incoming ≡ false
  unfolding has
  apart_append q qs r fresh new =
      ground (arith, has-append qs r q.id q.incoming, same_key-sym r.id r.incoming q.id q.incoming)

  pub append-IsKeyed :
      (list : List (Row F)) (r : Row F)
      → has list r.id r.incoming ≡ false
      → IsKeyed list
      → IsKeyed (list ++ r ∷ [])
  unfolding IsKeyed has
  append-IsKeyed [] r fresh keyed = (refl, tt)
  append-IsKeyed (q ∷ qs) r fresh (new, keyed) =
      (apart_append q qs r fresh new, append-IsKeyed qs r (ground arith) keyed)

module _ {F : Type 0} ⦃f64 : F64 F⦄ where
  -- A file that is added has a new id.
  unfoldable pub IsFresh : Change F → List (Row F) → Type 0
  IsFresh (add_out id name size) list = has list id false ≡ false
  IsFresh _ list = Unit

  -- Every change of the page keeps the keys of the rows apart, as long as an added file has an id
  -- that no outgoing row has: `(id, incoming)` names one row.
  pub apply-IsKeyed :
      (change : Change F) (list : List (Row F))
      → IsFresh change list
      → IsKeyed list
      → IsKeyed (apply change list)
  unfolding IsFresh apply incoming_offer recv_progress recv_complete send_progress
      push_outgoing_pending mark_offered mark_rejected mark_cancelled_remote
      mark_all_active_cancelled cancel_active accept decline cancel accept_all accept_one
  apply-IsKeyed (offer_in meta) list fresh keyed =
      upsert-IsKeyed list _ _ _ _ (ground arith) (λ r. (refl, refl)) keyed
  apply-IsKeyed (progress_in id name recv total speed) list fresh keyed =
      upsert-IsKeyed list _ _ _ _ (ground arith) (λ r. (refl, refl)) keyed
  apply-IsKeyed (complete_in id name) list fresh keyed =
      upsert-IsKeyed list _ _ _ _ (ground arith) (λ r. (refl, refl)) keyed
  apply-IsKeyed (progress_out id name sent total) list fresh keyed =
      upsert-IsKeyed list _ _ _ _ (ground arith) (λ r. (refl, refl)) keyed
  apply-IsKeyed (add_out id name size) list fresh keyed = append-IsKeyed list _ fresh keyed
  apply-IsKeyed (offer_out id) list fresh keyed =
      modify-IsKeyed list _ _ _ (λ r. (ground arith, ground arith)) keyed
  apply-IsKeyed (rejected_out id) list fresh keyed =
      modify-IsKeyed list _ _ _ (λ r. (refl, refl)) keyed
  apply-IsKeyed (cancelled_out id) list fresh keyed =
      modify-IsKeyed list _ _ _ (λ r. (ground arith, ground arith)) keyed
  apply-IsKeyed connection_lost list fresh keyed =
      map-IsKeyed list _ (λ r. (ground arith, ground arith)) keyed
  apply-IsKeyed (accept_in id) list fresh keyed =
      modify-IsKeyed list _ _ _ (λ r. (refl, refl)) keyed
  apply-IsKeyed (decline_in id) list fresh keyed = retain-IsKeyed _ list keyed
  apply-IsKeyed (cancel_in id) list fresh keyed =
      modify-IsKeyed list _ _ _ (λ r. (refl, refl)) keyed
  apply-IsKeyed (accept_all_in ids) list fresh keyed =
      map-IsKeyed list _ (λ r. (ground arith, ground arith)) keyed
