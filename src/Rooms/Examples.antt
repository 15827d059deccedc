-- ===== src/Rooms/Examples.antt =====
-- Runs of rooms.rs on small registries, and its theorems applied to them.
use file_send.Prelude.{
  retain, find, contains, Text, text, Text-discrete, nat_key, text_key, ◌≡◌, refl, none, some, [],
  ◌∷◌, arith, ℕ_discrete,
}
use file_send.HashMap.{get, insert, remove, contains_key}
use file_send.Rooms.{
  joined, full, RoomRegistry, new, create, enter, join, touch, reap_idle, partner, leave,
  remove_peer, debug_room_of,
}
use file_send.Rooms.Members.{members}
use file_send.Rooms.Pairs.{IsConsistent}
use file_send.Rooms.Reach.{creates, joins, Reach, here, next, Reach-IsConsistent}
use file_send.Rooms.Ghosts.{ghost_stays, self_join_fills}

-- What a run computes with.
program : Unit {0}
unfolding new create enter join touch reap_idle partner leave remove_peer debug_room_of get insert
    remove contains_key Text-discrete ℕ_discrete retain find contains members
program = tt

abbrev room1 : Text
room1 = text "room1"

abbrev waiting : RoomRegistry
waiting = record {
  rooms = (room1, record { peers = 1 ∷ []; last_activity_ms = 0 }) ∷ [];
  peer_room = (1, room1) ∷ [];
}

abbrev paired : RoomRegistry
paired = record {
  rooms = (room1, record { peers = 1 ∷ 2 ∷ []; last_activity_ms = 5 }) ∷ [];
  peer_room = (1, room1) ∷ (2, room1) ∷ [];
}

create_then_join_pairs_peers :
    ((create new 1 room1 0).0 ≡ waiting)
    × (join waiting 2 room1 5 ≡ (paired, joined))
    × (partner paired 1 ≡ some 2)
    × (partner paired 2 ≡ some 1)
    × (debug_room_of paired 2 ≡ some (room1, 1 ∷ 2 ∷ []))
unfolding program
create_then_join_pairs_peers = (refl, refl, refl, refl, refl)

third_peer_is_full : (join paired 3 room1 9).1 ≡ full
unfolding program
third_peer_is_full = refl

remove_notifies_partner_and_keeps_room :
    ((remove_peer paired 1).1 ≡ some 2) × ((remove_peer waiting 1).0 ≡ new)
unfolding program
remove_notifies_partner_and_keeps_room = (refl, refl)

waiting-reached : Reach new waiting
unfolding program
waiting-reached = next here (creates 1 room1 0 refl refl)

paired-reached : Reach new paired
unfolding program
paired-reached = next waiting-reached (joins 2 room1 5 refl)

Reach-IsConsistent_example : IsConsistent paired
Reach-IsConsistent_example = Reach-IsConsistent paired-reached

ghost_stays_example :
    (get (remove_peer (create (create new 1 room1 0).0 1 (text "room2") 1).0 1).0.peer_room 1
      ≡ none)
    × (members (remove_peer (create (create new 1 room1 0).0 1 (text "room2") 1).0 1).0.rooms room1
        ≡ 1 ∷ [])
ghost_stays_example = ghost_stays new 1 room1 (text "room2") 0 1 (λ e. ground arith)

self_join_fills_example :
    ((join (create new 1 room1 0).0 1 room1 1).1 ≡ joined)
    × (partner (join (create new 1 room1 0).0 1 room1 1).0 1 ≡ none)
    × ((join (join (create new 1 room1 0).0 1 room1 1).0 2 room1 2).1 ≡ full)
self_join_fills_example = self_join_fills new 1 2 room1 0 1 2
