-- ===== src/Rows/Incoming.antt =====
-- The incoming rows of rows.rs: their changes are steps of the life of a transfer.
use file_send.Prelude.{
  if◌then◌else◌, Bool-cases, contains, Text, nat_key, text_key, ℕ, ◌≡◌, refl, ◌∙◌, inl, inr, Bool,
  true, false, ◌&&◌, Option, none, some, List, arith,
}
use file_send.Float.{F64}
use file_send.Protocol.{FileStart}
use file_send.Rows.{
  TransferState, offered, active, done, cancelled, Row, same_side, matches, accept, cancel,
  accept_one, accept_all, incoming_offer, recv_progress, recv_complete,
}
use file_send.Rows.Lookup.{
  map_state, or_make, same_key, state_of, Keeps, state_of-modify, state_of-upsert, state_of-map,
}
use file_send.Rows.Changes.{
  offer_in, progress_in, complete_in, accept_in, cancel_in, accept_all_in, next_state,
}
use file_send.Rows.Outgoing.{in_branch}

same_side→≡ : (b c : Bool) → same_side b c ≡ true → b ≡ c
same_side→≡ true true h = refl
same_side→≡ true false h = ground arith
same_side→≡ false true h = ground arith
same_side→≡ false false h = refl

module _ {F : Type 0} ⦃f64 : F64 F⦄ where
  pub offered_next :
      (meta : FileStart F) (list : List (Row F)) (j : ℕ) (c : Bool)
      → state_of (incoming_offer list meta) j c ≡ (
          if same_key meta.id true j c
          then next_state (offer_in meta) (state_of list j c)
          else state_of list j c)
  unfolding incoming_offer next_state
  offered_next meta list j c =
      state_of-upsert list meta.id true _ _ (λ s. s) j c (ground arith) (λ r. (refl, refl))
        (λ r. refl)
      ∙ in_branch (same_key meta.id true j c) _ _ _ (by_state (state_of list j c))
    where
      by_state :
          (o : Option TransferState) → or_make offered (λ s. s) o ≡ next_state (offer_in meta) o
      by_state none = refl
      by_state (some s) = refl

  pub progress_in_next :
      (id : ℕ) (name : Text) (recv total speed : F) (list : List (Row F)) (j : ℕ) (c : Bool)
      → state_of (recv_progress list id name recv total speed) j c ≡ (
          if same_key id true j c
          then next_state (progress_in id name recv total speed) (state_of list j c)
          else state_of list j c)
  unfolding recv_progress next_state
  progress_in_next id name recv total speed list j c =
      state_of-upsert list id true _ _ (λ s. active) j c (ground arith) (λ r. (refl, refl))
        (λ r. refl)
      ∙ in_branch (same_key id true j c) _ _ _ (by_state (state_of list j c))
    where
      by_state :
          (o : Option TransferState)
          → or_make active (λ s. active) o ≡ next_state (progress_in id name recv total speed) o
      by_state none = refl
      by_state (some s) = refl

  pub complete_next :
      (id : ℕ) (name : Text) (list : List (Row F)) (j : ℕ) (c : Bool)
      → state_of (recv_complete list id name) j c ≡ (
          if same_key id true j c
          then next_state {F = F} (complete_in id name) (state_of list j c)
          else state_of list j c)
  unfolding recv_complete next_state
  complete_next id name list j c =
      state_of-upsert list id true _ _ (λ s. done) j c (ground arith) (λ r. (refl, refl))
        (λ r. refl)
      ∙ in_branch (same_key id true j c) _ _ _ (by_state (state_of list j c))
    where
      by_state :
          (o : Option TransferState)
          → or_make done (λ s. done) o ≡ next_state {F = F} (complete_in id name) o
      by_state none = refl
      by_state (some s) = refl

  pub accept_next :
      (id : ℕ) (list : List (Row F)) (j : ℕ) (c : Bool)
      → state_of (accept list id) j c ≡ (
          if same_key id true j c
          then next_state {F = F} (accept_in id) (state_of list j c)
          else state_of list j c)
  unfolding accept next_state
  accept_next id list j c =
      state_of-modify list id true (λ r. record r { state = active }) (λ s. active) j c
        (λ r. (refl, refl)) (λ r. refl)
      ∙ in_branch (same_key id true j c) _ _ _ (by_state (state_of list j c))
    where
      by_state :
          (o : Option TransferState)
          → map_state (λ s. active) o ≡ next_state {F = F} (accept_in id) o
      by_state none = refl
      by_state (some s) = refl

  pub cancel_next :
      (id : ℕ) (list : List (Row F)) (j : ℕ) (c : Bool)
      → state_of (cancel list id) j c ≡ (
          if same_key id true j c
          then next_state {F = F} (cancel_in id) (state_of list j c)
          else state_of list j c)
  unfolding cancel next_state
  cancel_next id list j c =
      state_of-modify list id true (λ r. record r { state = cancelled }) (λ s. cancelled) j c
        (λ r. (refl, refl)) (λ r. refl)
      ∙ in_branch (same_key id true j c) _ _ _ (by_state (state_of list j c))
    where
      by_state :
          (o : Option TransferState)
          → map_state (λ s. cancelled) o ≡ next_state {F = F} (cancel_in id) o
      by_state none = refl
      by_state (some s) = refl

  accept_one-Keeps : (ids : List ℕ) → Keeps (accept_one {F = F} ids)
  unfolding accept_one
  accept_one-Keeps ids r = (ground arith, ground arith)

  same_row :
      (ids : List ℕ) (j : ℕ) (c : Bool) (r : Row F)
      → matches j c r ≡ true
      → r.incoming && contains ids r.id ≡ c && contains ids j
  same_row ids j c r m =
      let id_same : r.id ≡ j = ground arith in
      let side_same = same_side→≡ r.incoming c (ground arith) in cc (id_same, side_same)

  accepted :
      (ids : List ℕ) (j : ℕ) (c : Bool) (r : Row F)
      → matches j c r ≡ true
      → c && contains ids j ≡ true
      → (accept_one ids r).state ≡ active
  unfolding accept_one
  accepted ids j c r m e = rw (same_row ids j c r m, e) refl

  not_accepted :
      (ids : List ℕ) (j : ℕ) (c : Bool) (r : Row F)
      → matches j c r ≡ true
      → c && contains ids j ≡ false
      → (accept_one ids r).state ≡ r.state
  unfolding accept_one
  not_accepted ids j c r m e = rw (same_row ids j c r m, e) refl

  pub accept_all_next :
      (ids : List ℕ) (list : List (Row F)) (j : ℕ) (c : Bool)
      → state_of (accept_all list ids) j c ≡ (
          if c && contains ids j
          then next_state {F = F} (accept_all_in ids) (state_of list j c)
          else state_of list j c)
  unfolding accept_all accept_one next_state
  accept_all_next ids list j c = elim (Bool-cases (c && contains ids j)) [
    | inl e ↦ rw (e) (
        state_of-map list _ (λ s. active) j c (accept_one-Keeps ids) (λ r m. accepted ids j c r m e)
        ∙ by_state (state_of list j c))
    | inr e ↦ rw (e) (
        state_of-map list _ (λ s. s) j c (accept_one-Keeps ids) (λ r m. not_accepted ids j c r m e)
        ∙ unchanged (state_of list j c))
  ]
    where
      by_state :
          (o : Option TransferState)
          → map_state (λ s. active) o ≡ next_state {F = F} (accept_all_in ids) o
      by_state none = refl
      by_state (some s) = refl

      unchanged : (o : Option TransferState) → map_state (λ s. s) o ≡ o
      unchanged none = refl
      unchanged (some s) = refl
