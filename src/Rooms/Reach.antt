-- ===== src/Rooms/Reach.antt =====
-- The registries of rooms.rs that calls can reach when each peer creates or joins only while it is
-- in no room, and rooms are created under ids that are not live.
use file_send.HashMap.Laws.{Entries-insert}
use file_send.Prelude.{
  Option-cases, contains, Text, nat_key, text_key, ℕ, ◌≡◌, sym, ap, ◌∙◌, inl, inr, false, none,
  some, List, arith,
}
use file_send.HashMap.{get, insert}
use file_send.Rooms.{
  PeerId, Room, RoomRegistry, new, create, join, contains_room, touch, reap_idle, remove_peer,
}
use file_send.Rooms.Members.{members, members-insert, members-eq_of_get}
use file_send.Rooms.Bounds.{IsOccupied, create-IsBounded, join-IsBounded}
use file_send.Rooms.Index.{create-IsIndexed, join-IsIndexed}
use file_send.Rooms.Exact.{create-IsExact, join-IsExact}
use file_send.Rooms.Pairs.{IsConsistent}
use file_send.Rooms.Departure.{remove_peer-IsConsistent}

pub data Step (r : RoomRegistry) : RoomRegistry → Type 0 where
  creates :
      (p : PeerId) (id : Text) (now : ℕ)
      → get r.peer_room p ≡ none
      → contains_room r id ≡ false
      → Step r (create r p id now).0
  joins : (p : PeerId) (id : Text) (now : ℕ) → get r.peer_room p ≡ none → Step r (join r p id now).0
  removes : (p : PeerId) → Step r (remove_peer r p).0
  touches : (id : Text) (now : ℕ) → Step r (touch r id now)
  reaps : (now ttl : ℕ) → Step r (reap_idle r now ttl).0

pub data Reach (r : RoomRegistry) : RoomRegistry → Type 0 where
  here : Reach r r
  next : {s t : RoomRegistry} → Reach r s → Step s t → Reach r t

-- Another activity time changes no room's members.
touched-IsConsistent :
    (r : RoomRegistry) (id : Text) (now : ℕ) (room : Room)
    → get r.rooms id ≡ some room
    → IsConsistent r
    → IsConsistent (record r { rooms = insert r.rooms id (record room { last_activity_ms = now }) })
touched-IsConsistent r id now room found h = record {
  bounded = Entries-insert IsOccupied r.rooms id _ h.bounded (h.bounded id room found);
  indexed = λ p j e. same j p ∙ h.indexed p j e;
  exact = λ j p e. h.exact j p (sym (same j p) ∙ e);
}
  where
    same :
        (j : Text) (p : PeerId)
        → contains (members (insert r.rooms id (record room { last_activity_ms = now })) j) p
          ≡ contains (members r.rooms j) p
    same j p =
        ap (λ (xs : List PeerId). contains xs p)
          (ground (
            arith,
            members-insert r.rooms id j (record room { last_activity_ms = now }),
            members-eq_of_get r.rooms id room found,
          ))

touch-IsConsistent :
    (r : RoomRegistry) (id : Text) (now : ℕ) → IsConsistent r → IsConsistent (touch r id now)
unfolding touch
touch-IsConsistent r id now h = elim (Option-cases (get r.rooms id)) [
  | inl e ↦ rw (e, touch) h
  | inr (room, e) ↦ rw (e, touch) (touched-IsConsistent r id now room e h)
]

new-IsConsistent : IsConsistent new
unfolding new members get contains
new-IsConsistent = record {
  bounded = λ id room e. ground arith;
  indexed = λ id room e. ground arith;
  exact = λ id p e. ground arith;
}

Step-IsConsistent : {r s : RoomRegistry} → Step r s → IsConsistent r → IsConsistent s
unfolding reap_idle
Step-IsConsistent {r} (creates p id now free fresh) h = record {
  bounded = create-IsBounded r p id now h.bounded;
  indexed = create-IsIndexed r p id now fresh h.indexed;
  exact = create-IsExact r p id now free h.exact;
}
Step-IsConsistent {r} (joins p id now free) h = record {
  bounded = join-IsBounded r p id now h.bounded;
  indexed = join-IsIndexed r p id now h.indexed;
  exact = join-IsExact r p id now free h.exact;
}
Step-IsConsistent {r} (removes p) h = remove_peer-IsConsistent r p h
Step-IsConsistent {r} (touches id now) h = touch-IsConsistent r id now h
Step-IsConsistent (reaps now ttl) h = h

-- As long as each peer creates or joins a room only while it is in none, and a room is created
-- under an id that is not live, every registry that the calls reach from the empty one is
-- consistent: a room has one or two peers, the index sends each peer to a room that holds it, and a
-- room holds no other peer. The server itself does not enforce the condition on peers.
pub Reach-IsConsistent : {r : RoomRegistry} → Reach new r → IsConsistent r
Reach-IsConsistent here = new-IsConsistent
Reach-IsConsistent (next path st) = Step-IsConsistent st (Reach-IsConsistent path)
