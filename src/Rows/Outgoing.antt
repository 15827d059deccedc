-- ===== src/Rows/Outgoing.antt =====
-- The outgoing rows of rows.rs: their changes are steps of the life of a transfer.
use file_send.Prelude.{
  if◌then◌else◌, Text, nat_key, text_key, ℕ, ◌≡◌, refl, ◌∙◌, Bool, true, false, Option, none, some,
  List, arith,
}
use file_send.Float.{F64}
use file_send.Rows.{
  TransferState, pending, offered, active, done, declined, cancelled, is_state, Row, mark_offered,
  mark_rejected, mark_cancelled_remote, frac, send_progress, push_outgoing_pending,
}
use file_send.Rows.Lookup.{
  map_state, or_make, same_key, state_of, state_of-modify, state_of-upsert, state_of-append,
}
use file_send.Rows.Changes.{
  progress_out, add_out, offer_out, rejected_out, cancelled_out, next_state,
}

pub in_branch :
    {A : Type 0} (k : Bool) (o p q : A) → p ≡ q → (if k then p else o) ≡ (if k then q else o)
in_branch true o p q e = e
in_branch false o p q e = refl

module _ {F : Type 0} ⦃f64 : F64 F⦄ where
  pub offer_out_next :
      (id : ℕ) (list : List (Row F)) (j : ℕ) (c : Bool)
      → state_of (mark_offered list id) j c ≡ (
          if same_key id false j c
          then next_state {F = F} (offer_out id) (state_of list j c)
          else state_of list j c)
  unfolding mark_offered next_state
  offer_out_next id list j c =
      state_of-modify list id false
        (λ r. if is_state r.state pending then record r { state = offered } else r)
        (λ s. if is_state s pending then offered else s) j c (λ r. (ground arith, ground arith))
        (λ r. ground arith)
      ∙ in_branch (same_key id false j c) _ _ _ (by_state (state_of list j c))
    where
      by_state :
          (o : Option TransferState)
          → map_state (λ s. if is_state s pending then offered else s) o
            ≡ next_state {F = F} (offer_out id) o
      by_state none = refl
      by_state (some pending) = refl
      by_state (some offered) = refl
      by_state (some active) = refl
      by_state (some done) = refl
      by_state (some declined) = refl
      by_state (some cancelled) = refl

  pub rejected_next :
      (id : ℕ) (list : List (Row F)) (j : ℕ) (c : Bool)
      → state_of (mark_rejected list id) j c ≡ (
          if same_key id false j c
          then next_state {F = F} (rejected_out id) (state_of list j c)
          else state_of list j c)
  unfolding mark_rejected next_state
  rejected_next id list j c =
      state_of-modify list id false (λ r. record r { state = declined }) (λ s. declined) j c
        (λ r. (refl, refl)) (λ r. refl)
      ∙ in_branch (same_key id false j c) _ _ _ (by_state (state_of list j c))
    where
      by_state :
          (o : Option TransferState)
          → map_state (λ s. declined) o ≡ next_state {F = F} (rejected_out id) o
      by_state none = refl
      by_state (some s) = refl

  pub cancelled_next :
      (id : ℕ) (list : List (Row F)) (j : ℕ) (c : Bool)
      → state_of (mark_cancelled_remote list id) j c ≡ (
          if same_key id false j c
          then next_state {F = F} (cancelled_out id) (state_of list j c)
          else state_of list j c)
  unfolding mark_cancelled_remote next_state
  cancelled_next id list j c =
      state_of-modify list id false
        (λ r. if is_state r.state done then r else record r { state = cancelled })
        (λ s. if is_state s done then s else cancelled) j c (λ r. (ground arith, ground arith))
        (λ r. ground arith)
      ∙ in_branch (same_key id false j c) _ _ _ (by_state (state_of list j c))
    where
      by_state :
          (o : Option TransferState)
          → map_state (λ s. if is_state s done then s else cancelled) o
            ≡ next_state {F = F} (cancelled_out id) o
      by_state none = refl
      by_state (some pending) = refl
      by_state (some offered) = refl
      by_state (some active) = refl
      by_state (some done) = refl
      by_state (some declined) = refl
      by_state (some cancelled) = refl

  pub progress_out_next :
      (id : ℕ) (name : Text) (sent total : F) (list : List (Row F)) (j : ℕ) (c : Bool)
      → state_of (send_progress list id name sent total) j c ≡ (
          if same_key id false j c
          then next_state (progress_out id name sent total) (state_of list j c)
          else state_of list j c)
  unfolding send_progress next_state
  progress_out_next id name sent total list j c =
      state_of-upsert list id false _ _
        (λ s. if f64.le (f64.of_nat 1) (frac sent total) then done else active) j c (ground arith)
        (λ r. (refl, refl)) (λ r. refl)
      ∙ in_branch (same_key id false j c) _ _ _
          (by_state (state_of list j c) (f64.le (f64.of_nat 1) (frac sent total)))
    where
      by_state :
          (o : Option TransferState) (b : Bool)
          → or_make (if b then done else active) (λ s. if b then done else active) o
            ≡ (if b then some done else some active)
      by_state none true = refl
      by_state none false = refl
      by_state (some s) true = refl
      by_state (some s) false = refl

  pub add_next :
      (id : ℕ) (name : Text) (size : F) (list : List (Row F)) (j : ℕ) (c : Bool)
      → state_of (push_outgoing_pending list id name size) j c ≡ (
          if same_key id false j c
          then next_state (add_out id name size) (state_of list j c)
          else state_of list j c)
  unfolding push_outgoing_pending next_state
  add_next id name size list j c =
      state_of-append list _ j c ∙ by_state (state_of list j c) (same_key id false j c)
    where
      by_state :
          (o : Option TransferState) (k : Bool)
          → elim o [ some s ↦ some s | none ↦ if k then some pending else none ]
            ≡ (if k then next_state (add_out id name size) o else o)
      by_state none true = refl
      by_state none false = refl
      by_state (some s) true = refl
      by_state (some s) false = refl
