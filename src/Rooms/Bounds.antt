-- ===== src/Rooms/Bounds.antt =====
-- How many peers a room of rooms.rs holds.
use file_send.Prelude.{
  leb, Bool-cases, Option-cases, length, is_empty, retain, length-append, length-retain-le, others,
  Text, nat_key, text_key, ℕ, ◌≤◌, ◌<◌, ◌≡◌, inl, inr, some, [], ◌∷◌, arith,
}
use file_send.HashMap.{get}
use file_send.HashMap.Laws.{Entries, Entries-insert, Entries-remove}
use file_send.Rooms.{PeerId, Room, RoomRegistry, create, enter, join, leave, remove_peer}

-- A room is dropped with its last peer and never takes a third.
abbrev pub IsOccupied : Text → Room → Type 0
IsOccupied id room = (0 < length room.peers) × (length room.peers ≤ 2)

abbrev pub IsBounded : RoomRegistry → Type 0
IsBounded r = Entries IsOccupied r.rooms

module _ (r : RoomRegistry) (peer : PeerId) where
  pub create-IsBounded : (id : Text) (now : ℕ) → IsBounded r → IsBounded (create r peer id now).0
  unfolding create
  create-IsBounded id now h = Entries-insert IsOccupied r.rooms id _ h (omega arith)

  pub join-IsBounded : (id : Text) (now : ℕ) → IsBounded r → IsBounded (join r peer id now).0
  unfolding join enter
  join-IsBounded id now h = elim (Option-cases (get r.rooms id)) [
    | inl e ↦ rw (e, join) h
    | inr (room, e) ↦ elim (Bool-cases (leb 2 (length room.peers))) [
      | inl many ↦ rw (e, join, many) h
      | inr few ↦
          rw (e, join, few)
            (Entries-insert IsOccupied r.rooms id _ h
              (ground (arith, length-append room.peers (peer ∷ []))))
    ]
  ]

  leave-IsOccupied :
      (id : Text) (room : Room)
      → get r.rooms id ≡ some room
      → IsBounded r
      → IsBounded (record r { rooms = leave r.rooms peer id room })
  unfolding leave
  leave-IsOccupied id room found h =
      elim (Bool-cases (is_empty (retain (others peer) room.peers))) [
        | inl bare ↦ rw (leave, bare) (Entries-remove IsOccupied r.rooms id h)
        | inr left ↦
            rw (leave, left)
              (Entries-insert IsOccupied r.rooms id _ h
                (ground (arith, h id room, length-retain-le (others peer) room.peers)))
      ]

  pub remove_peer-IsBounded : IsBounded r → IsBounded (remove_peer r peer).0
  unfolding remove_peer
  remove_peer-IsBounded h = elim (Option-cases (get r.peer_room peer)) [
    | inl e ↦ rw (e, remove_peer) h
    | inr (id, e) ↦ elim (Option-cases (get r.rooms id)) [
      | inl gone ↦ rw (e, remove_peer, gone) h
      | inr (room, found) ↦ rw (e, remove_peer, found) (leave-IsOccupied id room found h)
    ]
  ]
