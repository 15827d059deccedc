-- ===== src/Rows/Changes.antt =====
-- The page's changes to its rows: which function of rows.rs each handler of app.rs calls, and what
-- that does to the state under every key.
use file_send.Float.{F64}
use file_send.Protocol.{FileStart}
use file_send.Prelude.{
  if◌then◌else◌, contains, Text, nat_key, text_key, ℕ, Bool, true, false, ◌&&◌, Option, none, some,
  List,
}
use file_send.Rows.{
  TransferState, pending, offered, active, done, declined, cancelled, Row, mark_offered,
  mark_rejected, mark_cancelled_remote, mark_all_active_cancelled, accept, decline, cancel,
  accept_all, frac, incoming_offer, recv_progress, recv_complete, send_progress,
  push_outgoing_pending,
}
use file_send.Rows.Lookup.{same_key}

-- One change, with the arguments of the function it calls.
pub data Change (F : Type 0) : Type 0 where
  offer_in : FileStart F → Change F
  progress_in : ℕ → Text → F → F → F → Change F
  complete_in : ℕ → Text → Change F
  progress_out : ℕ → Text → F → F → Change F
  add_out : ℕ → Text → F → Change F
  offer_out : ℕ → Change F
  rejected_out : ℕ → Change F
  cancelled_out : ℕ → Change F
  connection_lost : Change F
  accept_in : ℕ → Change F
  decline_in : ℕ → Change F
  cancel_in : ℕ → Change F
  accept_all_in : List ℕ → Change F

module _ {F : Type 0} ⦃f64 : F64 F⦄ where
  unfoldable pub apply : Change F → List (Row F) → List (Row F)
  apply (offer_in meta) list = incoming_offer list meta
  apply (progress_in id name recv total speed) list = recv_progress list id name recv total speed
  apply (complete_in id name) list = recv_complete list id name
  apply (progress_out id name sent total) list = send_progress list id name sent total
  apply (add_out id name size) list = push_outgoing_pending list id name size
  apply (offer_out id) list = mark_offered list id
  apply (rejected_out id) list = mark_rejected list id
  apply (cancelled_out id) list = mark_cancelled_remote list id
  apply connection_lost list = mark_all_active_cancelled list
  apply (accept_in id) list = accept list id
  apply (decline_in id) list = decline list id
  apply (cancel_in id) list = cancel list id
  apply (accept_all_in ids) list = accept_all list ids

  -- Whether a change is about the row of a key.
  unfoldable pub concerns : Change F → ℕ → Bool → Bool
  concerns (offer_in meta) j c = same_key meta.id true j c
  concerns (progress_in id name recv total speed) j c = same_key id true j c
  concerns (complete_in id name) j c = same_key id true j c
  concerns (progress_out id name sent total) j c = same_key id false j c
  concerns (add_out id name size) j c = same_key id false j c
  concerns (offer_out id) j c = same_key id false j c
  concerns (rejected_out id) j c = same_key id false j c
  concerns (cancelled_out id) j c = same_key id false j c
  concerns connection_lost j c = true
  concerns (accept_in id) j c = same_key id true j c
  concerns (decline_in id) j c = same_key id true j c
  concerns (cancel_in id) j c = same_key id true j c
  concerns (accept_all_in ids) j c = c && contains ids j

  -- The life of a transfer: the state that a change gives the row it is about, `none` for no row.
  unfoldable pub next_state : Change F → Option TransferState → Option TransferState
  next_state (offer_in meta) none = some offered
  next_state (offer_in meta) (some s) = some s
  next_state (progress_in id name recv total speed) o = some active
  next_state (complete_in id name) o = some done
  next_state (progress_out id name sent total) o =
      if f64.le (f64.of_nat 1) (frac sent total) then some done else some active
  next_state (add_out id name size) none = some pending
  next_state (add_out id name size) (some s) = some s
  next_state (offer_out id) (some pending) = some offered
  next_state (offer_out id) o = o
  next_state (rejected_out id) none = none
  next_state (rejected_out id) (some s) = some declined
  next_state (cancelled_out id) none = none
  next_state (cancelled_out id) (some done) = some done
  next_state (cancelled_out id) (some s) = some cancelled
  next_state connection_lost (some active) = some cancelled
  next_state connection_lost o = o
  next_state (accept_in id) none = none
  next_state (accept_in id) (some s) = some active
  next_state (decline_in id) o = none
  next_state (cancel_in id) none = none
  next_state (cancel_in id) (some s) = some cancelled
  next_state (accept_all_in ids) none = none
  next_state (accept_all_in ids) (some s) = some active
