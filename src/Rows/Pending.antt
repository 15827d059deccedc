-- ===== src/Rows/Pending.antt =====
-- The functions of rows.rs that are about many rows at once.
use file_send.Prelude.{
  if◌then◌else◌, Bool-cases, retain, All, contains, nat_key, text_key, ℕ, ◌≡◌, refl, inl, inr, Bool,
  true, false, ◌&&◌, List, [], ◌∷◌, map, arith,
}
use file_send.Rows.{
  TransferState, active, done, is_state, Row, cancel_active, mark_all_active_cancelled, is_pending,
  pending_incoming_ids, accept_one, accept_all,
}

All-map : (P Q : ℕ → Type 0) (xs : List ℕ) → ((x : ℕ) → P x → Q x) → All P xs → All Q xs
All-map P Q [] f h = tt
All-map P Q (x ∷ xs) f h = (f x h.0, All-map P Q xs f h.1)

-- A list contains what stands in it.
All-contains : (xs : List ℕ) → All (λ x. contains xs x ≡ true) xs
unfolding contains
All-contains [] = tt
All-contains (x ∷ xs) = (ground arith, All-map _ _ xs (λ y h. ground arith) (All-contains xs))

active-not_done : (s : TransferState) → is_state s active ≡ true → is_state s done ≡ false
active-not_done s h = ground arith

module _ {F : Type 0} where
  cover_split :
      (b : Bool) (r : Row F) (rest : List (Row F)) (ids : List ℕ)
      → All (λ id. contains ids id ≡ true) (map (λ q. q.id) (if b then r ∷ rest else rest))
      → (b ≡ true → contains ids r.id ≡ true)
        × All (λ id. contains ids id ≡ true) (map (λ q. q.id) rest)
  cover_split true r rest ids h = (λ e. h.0, h.1)
  cover_split false r rest ids h = (λ e. ground arith, h)

  accept_one-is_pending :
      (ids : List ℕ) (r : Row F)
      → (is_pending r ≡ true → contains ids r.id ≡ true)
      → is_pending (accept_one ids r) ≡ false
  unfolding accept_one
  accept_one-is_pending ids r h = elim (Bool-cases (r.incoming && contains ids r.id)) [
    | inl e ↦ rw (e) (ground arith)
    | inr e ↦
        rw (e)
          (elim (Bool-cases (is_pending r)) [ inl p ↦ absurd (ground (arith, h p)) | inr p ↦ p ])
  ]

  accept_all_covers :
      (list : List (Row F)) (ids : List ℕ)
      → All (λ id. contains ids id ≡ true) (pending_incoming_ids list)
      → pending_incoming_ids (accept_all list ids) ≡ []
  unfolding pending_incoming_ids accept_all retain
  accept_all_covers [] ids h = refl
  accept_all_covers (r ∷ rs) ids h =
      let (here, rest) = cover_split (is_pending r) r (retain is_pending rs) ids h in
      rw (accept_one-is_pending ids r here) (accept_all_covers rs ids rest)

  -- After "Accept all" nothing awaits a decision.
  pub accept_all-pending :
      (list : List (Row F))
      → pending_incoming_ids (accept_all list (pending_incoming_ids list)) ≡ []
  accept_all-pending list = accept_all_covers list _ (All-contains (pending_incoming_ids list))

  -- After a lost connection no row is active, and the rows that are done are as before.
  pub mark_all_active_cancelled-retain :
      (list : List (Row F))
      → (retain (λ r. is_state r.state active) (mark_all_active_cancelled list) ≡ [])
        × (retain (λ r. is_state r.state done) (mark_all_active_cancelled list)
            ≡ retain (λ r. is_state r.state done) list)
  unfolding retain mark_all_active_cancelled cancel_active
  mark_all_active_cancelled-retain [] = (refl, refl)
  mark_all_active_cancelled-retain (r ∷ rs) =
      let (none_left, as_before) = mark_all_active_cancelled-retain rs in
      elim (Bool-cases (is_state r.state active)) [
        | inl e ↦ (rw (e) none_left, rw (e, active-not_done r.state e) as_before)
        | inr e ↦ (rw (e, e) none_left, ground (arith, e, as_before))
      ]
