-- ===== src/Reconnect/Examples.antt =====
-- Runs of reconnect.rs from its own tests, and its theorems applied to them.
use file_send.Wire.{SignalMsg}
use file_send.Prelude.{
  All, Text, text, Text-discrete, nat_key, text_key, ◌+◌, ◌≤◌, ◌≡◌, refl, true, false, none, some,
  List, [], ◌∷◌, arith, ℕ_discrete,
}
use file_send.Reconnect.Reclaims.{reclaims, drops, attempts, run-reclaims-le}
use file_send.Reconnect.Guard.{Reclaims, Owns, run-Reclaims, negotiation_guarded}
use file_send.Reconnect.{
  Status, Event, opened, offer, answer, Session, send_create, send_join, send_reclaim,
  build_pc_and_offer, set_remote_answer, add_ice, set_status, is_owner, room_lost, step,
  dropped_session, event_of, Input, event, feed, run,
}

program : Unit {0}
unfolding is_owner room_lost step dropped_session event_of feed run Text-discrete ℕ_discrete
program = tt

abbrev code : Text
code = text "k7m4qp"

abbrev fresh : Session
fresh = record { room_in_hash = none; owns = none; reclaim_tried = false; has_pc = false }

abbrev owner : Session
owner = record fresh { room_in_hash = some code; owns = some code }

fresh_visit_creates_a_room : step fresh opened ≡ some (fresh, send_create ∷ [])
unfolding program
fresh_visit_creates_a_room = refl

reload_with_room_in_hash_rejoins_it : step owner opened ≡ some (owner, send_join code ∷ [])
unfolding program
reload_with_room_in_hash_rejoins_it = refl

abbrev refused : List Input
refused = event Event.room_not_found ∷ event Event.room_not_found ∷ []

second_room_not_found_does_not_reclaim_again :
    run owner refused
    ≡ some (
      record owner { reclaim_tried = true },
      send_reclaim code ∷ set_status Status.room_not_found ∷ [],
    )
unfolding program
second_room_not_found_does_not_reclaim_again = refl

non_owner_never_reclaims :
    step (record owner { owns = none }) Event.room_not_found
    ≡ some (record owner { owns = none }, set_status Status.room_not_found ∷ [])
unfolding program
non_owner_never_reclaims = refl

offer_is_told_from_answer :
    (event_of (SignalMsg.sdp (text "O") (text "offer")) ≡ some (offer (text "O")))
    × (event_of (SignalMsg.sdp (text "A") (text "answer")) ≡ some (answer (text "A")))
unfolding program
offer_is_told_from_answer = (refl, refl)

run-reclaims-le_example :
    reclaims (send_reclaim code ∷ set_status Status.room_not_found ∷ [])
    ≤ attempts owner + drops refused
run-reclaims-le_example =
    run-reclaims-le owner (record owner { reclaim_tried = true }) refused
      (send_reclaim code ∷ set_status Status.room_not_found ∷ [])
      second_room_not_found_does_not_reclaim_again

abbrev IsCode : Text → Type 0
IsCode room = room ≡ code

owner-Owns : Owns IsCode owner
owner-Owns room e = ground arith

run-Reclaims_example :
    All (Reclaims IsCode) (send_reclaim code ∷ set_status Status.room_not_found ∷ [])
run-Reclaims_example =
    run-Reclaims IsCode owner (record owner { reclaim_tried = true }) refused
      (send_reclaim code ∷ set_status Status.room_not_found ∷ []) owner-Owns (tt, (tt, tt))
      second_room_not_found_does_not_reclaim_again

answered :
    run owner (event Event.peer_joined ∷ [])
    ≡ some (record owner { has_pc = true }, build_pc_and_offer ∷ [])
unfolding program
answered = refl

negotiation_guarded_example :
    (step (record owner { has_pc = true }) (answer (text "ANS"))
      ≡ some (record owner { has_pc = true }, set_remote_answer (text "ANS") ∷ []))
    × (step (record owner { has_pc = true }) Event.ice
        ≡ some (record owner { has_pc = true }, add_ice ∷ []))
negotiation_guarded_example =
    negotiation_guarded owner (record owner { has_pc = true }) (event Event.peer_joined ∷ [])
      (build_pc_and_offer ∷ []) (text "ANS") answered
