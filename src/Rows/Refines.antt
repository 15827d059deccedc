-- ===== src/Rows/Refines.antt =====
-- Each function of rows.rs is a step of the life of the transfers it is about.
use file_send.Prelude.{
  if◌then◌else◌, nat_key, text_key, ℕ, ◌≡◌, refl, ◌∙◌, Bool, Option, none, some, List, arith,
}
use file_send.Float.{F64}
use file_send.Rows.{
  TransferState, pending, offered, active, done, declined, cancelled, is_state, Row, cancel_active,
  mark_all_active_cancelled,
}
use file_send.Rows.Lookup.{map_state, state_of, state_of-map, state_of-decline}
use file_send.Rows.Changes.{
  Change, offer_in, progress_in, complete_in, progress_out, add_out, offer_out, rejected_out,
  cancelled_out, connection_lost, accept_in, decline_in, cancel_in, accept_all_in, apply, concerns,
  next_state,
}
use file_send.Rows.Outgoing.{
  offer_out_next, rejected_next, cancelled_next, progress_out_next, add_next,
}
use file_send.Rows.Incoming.{
  offered_next, progress_in_next, complete_next, accept_next, cancel_next, accept_all_next,
}

module _ {F : Type 0} ⦃f64 : F64 F⦄ where
  lost_next :
      (list : List (Row F)) (j : ℕ) (c : Bool)
      → state_of (mark_all_active_cancelled list) j c
        ≡ next_state {F = F} connection_lost (state_of list j c)
  unfolding mark_all_active_cancelled cancel_active next_state
  lost_next list j c =
      state_of-map list _ (λ s. if is_state s active then cancelled else s) j c
        (λ r. (ground arith, ground arith)) (λ r m. ground arith)
      ∙ by_state (state_of list j c)
    where
      by_state :
          (o : Option TransferState)
          → map_state (λ s. if is_state s active then cancelled else s) o
            ≡ next_state {F = F} connection_lost o
      by_state none = refl
      by_state (some pending) = refl
      by_state (some offered) = refl
      by_state (some active) = refl
      by_state (some done) = refl
      by_state (some declined) = refl
      by_state (some cancelled) = refl

  -- Every change gives the row it is about the next state of its life, and leaves the state of
  -- every other row.
  pub apply_refines :
      (change : Change F) (list : List (Row F)) (j : ℕ) (c : Bool)
      → state_of (apply change list) j c
        ≡ (if concerns change j c then next_state change (state_of list j c) else state_of list j c)
  unfolding apply concerns next_state
  apply_refines (offer_in meta) list j c = offered_next meta list j c
  apply_refines (progress_in id name recv total speed) list j c =
      progress_in_next id name recv total speed list j c
  apply_refines (complete_in id name) list j c = complete_next id name list j c
  apply_refines (progress_out id name sent total) list j c =
      progress_out_next id name sent total list j c
  apply_refines (add_out id name size) list j c = add_next id name size list j c
  apply_refines (offer_out id) list j c = offer_out_next id list j c
  apply_refines (rejected_out id) list j c = rejected_next id list j c
  apply_refines (cancelled_out id) list j c = cancelled_next id list j c
  apply_refines connection_lost list j c = lost_next list j c
  apply_refines (accept_in id) list j c = accept_next id list j c
  apply_refines (decline_in id) list j c = state_of-decline list id j c
  apply_refines (cancel_in id) list j c = cancel_next id list j c
  apply_refines (accept_all_in ids) list j c = accept_all_next ids list j c
