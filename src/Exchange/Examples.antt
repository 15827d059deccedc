-- ===== src/Exchange/Examples.antt =====
-- One file of ten bytes between two pages, over natural numbers in place of floats.
use file_send.Prelude.{
  List, leb, contains, nat_key, text_key, ℕ, ◌≡◌, refl, Bool, true, false, none, some, [], ◌∷◌,
  arith,
}
use file_send.HashMap.{get}
use file_send.Rows.{frac, Row, offered, active, done, declined}
use file_send.Rows.Lookup.{state_of}
use file_send.Transfer.Codec.{whole, codec}
use file_send.Transfer.{Effect, Shared, new, spawn_send, stream_ended}
use file_send.Transfer.Delivery.{saved, deliver}
use file_send.Transfer.Complete.{arrivals}
use file_send.Transfer.Examples.{ten, calm, ten_sent, ten_runs, timed, timed_sent}
use file_send.App.{Page, mount, on_files, on_accept, on_decline, on_cancel, on_cancel_send}
use file_send.Exchange.{controls, handle_all, hears_all}
use file_send.Transfer.Send.{World}
use file_send.Transfer.Channel.{send_file_on_channel}
use file_send.Exchange.Failed.{failed_stream_done}
use file_send.Exchange.Refused.{IsStopped, IsRevoked, refusals_reach}
use file_send.Exchange.Accepted.{offer_text, accept_text, accepted_file_arrives}

-- The sender has numbered seven files before.
abbrev sending_page : Page ℕ
sending_page = record mount { next_id = 7; transfer = some new; is_open = true }

abbrev receiving_page : Page ℕ
receiving_page = record mount { transfer = some new; is_open = true }

no_row : state_of receiving_page.items 7 true ≡ none
unfolding state_of
no_row = refl

abbrev fresh : Shared ℕ
fresh = new

no_entry : get fresh.incoming 7 ≡ none
unfolding get
no_entry = refl

whole_fraction : leb 1 (frac {F = ℕ} ten.size ten.size) ≡ true
unfolding frac
whole_fraction = refl

not_cancelled : contains fresh.outgoing.cancelled 7 ≡ false
unfolding contains
not_cancelled = refl

accepted_file_arrives_example :
    let (sender, out) = on_files codec sending_page (ten ∷ []) in
    let (asked, silent) = hears_all codec receiving_page (controls out) in
    let (receiver, back) = on_accept codec asked 7 in
    let (sending, started) = hears_all codec sender (controls back) in
    (controls out ≡ offer_text codec 7 ten ∷ [])
    × (state_of asked.items 7 true ≡ some offered)
    × (controls back ≡ accept_text codec 7 ∷ [])
    × (state_of receiver.items 7 true ≡ some active)
    × (started ≡ spawn_send 7 ten ∷ [])
    × ((t : Shared ℕ) × (sending.transfer ≡ some t)
        × (state_of (handle_all (stream_ended t 7 ten).1 sending.items) 7 false ≡ some done))
    × ((t : Shared ℕ) × (receiver.transfer ≡ some t)
        × let effects = deliver codec 7 ten t none (arrivals timed) in
          (saved effects ≡ (ten.bytes, ten.mime, ten.name) ∷ [])
          × (state_of (handle_all effects receiver.items) 7 true ≡ some done))
accepted_file_arrives_example =
    accepted_file_arrives codec sending_page receiving_page fresh fresh ten calm 4 ten_sent timed
      refl refl refl (omega arith) refl no_row no_entry (omega arith) (omega arith) refl
      (omega arith) ten_runs refl timed_sent not_cancelled whole_fraction

-- The same file under way on both pages.
abbrev under_way : Bool → Row ℕ
under_way incoming = record {
  id = 7;
  name = ten.name;
  size = ten.size;
  kind = [];
  incoming = incoming;
  fraction = 0;
  speed = 0;
  state = active;
}

abbrev sender_page : Page ℕ
sender_page = record sending_page { items = under_way false ∷ [] }

abbrev receiver_page : Page ℕ
receiver_page = record receiving_page { items = under_way true ∷ [] }

rows_active :
    (state_of sender_page.items 7 false ≡ some active)
    × (state_of receiver_page.items 7 true ≡ some active)
unfolding state_of
rows_active = (refl, refl)

refusals_reach_example :
    let (refused, rejection) = on_decline codec receiver_page 7 in
    let (stopped, cancelling) = on_cancel codec receiver_page 7 in
    let (revoked, aborting) = on_cancel_send codec sender_page 7 in
    let declined_page = (hears_all codec sender_page (controls rejection)).0 in
    (state_of refused.items 7 true ≡ none)
    × (state_of declined_page.items 7 false ≡ some declined)
    × ((t : Shared ℕ) × (declined_page.transfer ≡ some t) × (get t.outgoing.offered 7 ≡ none))
    × IsStopped stopped 7
    × IsRevoked (hears_all codec sender_page (controls cancelling)).0 7
    × IsRevoked revoked 7
    × IsStopped (hears_all codec receiver_page (controls aborting)).0 7
refusals_reach_example =
    refusals_reach codec sender_page receiver_page fresh fresh 7 active active refl refl
      rows_active.0 rows_active.1 refl

-- A channel that takes nothing.
abbrev refusing : World
refusing = record calm { send_ok = λ t. false }

failed_stream_done_example :
    (after : Shared ℕ) × (effects : List (Effect ℕ)) × (send_file_on_channel
        (λ m. true)
        codec
        refusing
        7
        ten
        none
        true
        fresh
      ≡ some (after, [], effects))
    × (state_of (handle_all effects sender_page.items) 7 false ≡ some done)
failed_stream_done_example =
    failed_stream_done (λ m. true) codec refusing 7 ten none fresh sender_page.items refl
      not_cancelled whole_fraction
