-- ===== src/Rooms/Exact.antt =====
-- The converse of the index of rooms.rs: a room holds only the peers that the index puts there.
-- `create` and `join` keep it only for a peer that is in no room.
use file_send.Prelude.{
  leb, Bool-cases, Option-cases, length, contains, contains-append, contains-retain-others,
  contains-nil, contains-single, Text, nat_key, text_key, ℕ, ◌≡◌, inl, inr, true, none, some, [],
  ◌∷◌, arith,
}
use file_send.HashMap.{get, remove}
use file_send.HashMap.Laws.{get-insert, get-remove}
use file_send.Rooms.{PeerId, Room, RoomRegistry, create, enter, join, leave, remove_peer}
use file_send.Rooms.Members.{
  members, members-create, members-enter, members-leave, members-eq_of_get,
}

abbrev pub IsExact : RoomRegistry → Type 0
IsExact r =
    (id : Text) (p : PeerId) → contains (members r.rooms id) p ≡ true → get r.peer_room p ≡ some id

module _ (r : RoomRegistry) (peer : PeerId) where
  pub create-IsExact :
      (id : Text) (now : ℕ)
      → get r.peer_room peer ≡ none
      → IsExact r
      → IsExact (create r peer id now).0
  unfolding create
  create-IsExact id now free h j p e = ground (
    arith,
    members-create r peer id j now,
    contains-single peer p,
    get-insert r.peer_room peer p id,
    h j p,
  )

  enter-IsExact :
      (id : Text) (now : ℕ) (room : Room)
      → get r.rooms id ≡ some room
      → get r.peer_room peer ≡ none
      → IsExact r
      → IsExact (enter r peer id now room)
  unfolding enter
  enter-IsExact id now room found free h j p e = ground (
    arith,
    members-enter r peer id j now room,
    members-eq_of_get r.rooms id room found,
    contains-append room.peers (peer ∷ []) p,
    contains-single peer p,
    get-insert r.peer_room peer p id,
    h j p,
  )

  pub join-IsExact :
      (id : Text) (now : ℕ)
      → get r.peer_room peer ≡ none
      → IsExact r
      → IsExact (join r peer id now).0
  unfolding join
  join-IsExact id now free h = elim (Option-cases (get r.rooms id)) [
    | inl e ↦ rw (e, join) h
    | inr (room, e) ↦ elim (Bool-cases (leb 2 (length room.peers))) [
      | inl many ↦ rw (e, join, many) h
      | inr few ↦ rw (e, join, few) (enter-IsExact id now room e free h)
    ]
  ]

  left-IsExact :
      (id : Text) (room : Room)
      → get r.rooms id ≡ some room
      → get r.peer_room peer ≡ some id
      → IsExact r
      → IsExact (record { rooms = leave r.rooms peer id room; peer_room = remove r.peer_room peer })
  left-IsExact id room found at h j p e = ground (
    arith,
    members-leave r.rooms peer id j room,
    members-eq_of_get r.rooms id room found,
    contains-retain-others room.peers peer p,
    get-remove r.peer_room peer p,
    h j p,
  )

  gone-IsExact :
      (id : Text)
      → get r.rooms id ≡ none
      → get r.peer_room peer ≡ some id
      → IsExact r
      → IsExact (record r { peer_room = remove r.peer_room peer })
  unfolding members
  gone-IsExact id gone at h j p e =
      ground (arith, get-remove r.peer_room peer p, h j p, h j p e, contains-nil p)

  pub remove_peer-IsExact : IsExact r → IsExact (remove_peer r peer).0
  unfolding remove_peer
  remove_peer-IsExact h = elim (Option-cases (get r.peer_room peer)) [
    | inl e ↦ rw (e, remove_peer) h
    | inr (id, e) ↦ elim (Option-cases (get r.rooms id)) [
      | inl gone ↦ rw (e, remove_peer, gone) (gone-IsExact id gone e h)
      | inr (room, found) ↦ rw (e, remove_peer, found) (left-IsExact id room found e h)
    ]
  ]
