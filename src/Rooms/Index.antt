-- ===== src/Rooms/Index.antt =====
-- The reverse index of rooms.rs: the room that it names for a peer exists and holds the peer.
use file_send.Prelude.{
  leb, Bool-cases, Option-cases, length, contains, contains-append, contains-retain-others,
  contains-nil, contains-single, Text, nat_key, text_key, ℕ, ◌≡◌, inl, inr, true, false, some, [],
  ◌∷◌, arith,
}
use file_send.HashMap.{HashMap, get, remove}
use file_send.HashMap.Laws.{get-remove, Entries, Entries-insert, Entries-remove}
use file_send.Rooms.{
  PeerId, Room, RoomRegistry, create, enter, join, contains_room, leave, remove_peer,
}
use file_send.Rooms.Members.{
  members, members-create, members-enter, members-leave, members-eq_of_get, members-eq_of_absent,
}

-- The room that the index names for a peer holds it.
abbrev pub Holds : HashMap Text Room → PeerId → Text → Type 0
Holds rooms p id = contains (members rooms id) p ≡ true

abbrev pub IsIndexed : RoomRegistry → Type 0
IsIndexed r = Entries (Holds r.rooms) r.peer_room

module _ (r : RoomRegistry) (peer : PeerId) where
  pub create-IsIndexed :
      (id : Text) (now : ℕ)
      → contains_room r id ≡ false
      → IsIndexed r
      → IsIndexed (create r peer id now).0
  unfolding create
  create-IsIndexed id now fresh h =
      Entries-insert (Holds (create r peer id now).0.rooms) r.peer_room peer id kept
        (ground (arith, members-create r peer id id now, contains-single peer peer))
    where
      kept : Entries (Holds (create r peer id now).0.rooms) r.peer_room
      kept p j e = ground (
        arith,
        members-create r peer id j now,
        members-eq_of_absent r.rooms id fresh,
        h p j e,
        contains-nil p,
      )

  enter-IsIndexed :
      (id : Text) (now : ℕ) (room : Room)
      → get r.rooms id ≡ some room
      → IsIndexed r
      → IsIndexed (enter r peer id now room)
  unfolding enter
  enter-IsIndexed id now room found h =
      Entries-insert (Holds (enter r peer id now room).rooms) r.peer_room peer id kept (
        ground (
          arith,
          members-enter r peer id id now room,
          contains-append room.peers (peer ∷ []) peer,
          contains-single peer peer,
        ))
    where
      kept : Entries (Holds (enter r peer id now room).rooms) r.peer_room
      kept p j e = ground (
        arith,
        members-enter r peer id j now room,
        members-eq_of_get r.rooms id room found,
        contains-append room.peers (peer ∷ []) p,
        h p j e,
      )

  pub join-IsIndexed : (id : Text) (now : ℕ) → IsIndexed r → IsIndexed (join r peer id now).0
  unfolding join
  join-IsIndexed id now h = elim (Option-cases (get r.rooms id)) [
    | inl e ↦ rw (e, join) h
    | inr (room, e) ↦ elim (Bool-cases (leb 2 (length room.peers))) [
      | inl many ↦ rw (e, join, many) h
      | inr few ↦ rw (e, join, few) (enter-IsIndexed id now room e h)
    ]
  ]

  left-IsIndexed :
      (id : Text) (room : Room)
      → get r.rooms id ≡ some room
      → IsIndexed r
      → IsIndexed
          (record { rooms = leave r.rooms peer id room; peer_room = remove r.peer_room peer })
  left-IsIndexed id room found h p j e = ground (
    arith,
    members-leave r.rooms peer id j room,
    members-eq_of_get r.rooms id room found,
    contains-retain-others room.peers peer p,
    get-remove r.peer_room peer p,
    h p j,
  )

  pub remove_peer-IsIndexed : IsIndexed r → IsIndexed (remove_peer r peer).0
  unfolding remove_peer
  remove_peer-IsIndexed h = elim (Option-cases (get r.peer_room peer)) [
    | inl e ↦ rw (e, remove_peer) h
    | inr (id, e) ↦ elim (Option-cases (get r.rooms id)) [
      | inl gone ↦ rw (e, remove_peer, gone) (Entries-remove (Holds r.rooms) r.peer_room peer h)
      | inr (room, found) ↦ rw (e, remove_peer, found) (left-IsIndexed id room found h)
    ]
  ]
