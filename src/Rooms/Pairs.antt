-- ===== src/Rooms/Pairs.antt =====
-- Who the partner of a peer of rooms.rs is, and what a departure leaves.
use file_send.HashMap.Laws.{get-insert}
use file_send.Prelude.{
  leb, Option-cases, length, find, contains, others, find-others-contains, contains-single,
  find-others-pair, find-others-ne, Text, nat_key, text_key, ℕ, ◌≤◌, ◌≡◌, refl, inl, inr, true,
  false, none, some, [], ◌∷◌, ◌++◌, arith,
}
use file_send.HashMap.{get, insert}
use file_send.Rooms.{PeerId, joined, Room, RoomRegistry, enter, join, partner}
use file_send.Rooms.Members.{members, members-enter, members-eq_of_get}
use file_send.Rooms.Bounds.{IsBounded}
use file_send.Rooms.Index.{IsIndexed}
use file_send.Rooms.Exact.{IsExact}

-- What holds of a registry whose peers each create or join while they are in no room.
pub record IsConsistent (r : RoomRegistry) : Type 0 where
  pub bounded : IsBounded r
  pub indexed : IsIndexed r
  pub exact : IsExact r

pub partner-members :
    (r : RoomRegistry) (p : PeerId) (id : Text)
    → get r.peer_room p ≡ some id
    → partner r p ≡ find (others p) (members r.rooms id)
unfolding partner members find
partner-members r p id e = ground arith

few-members : (r : RoomRegistry) (id : Text) → IsBounded r → length (members r.rooms id) ≤ 2
unfolding members
few-members r id h = elim (Option-cases (get r.rooms id)) [
  | inl e ↦ rw (e, members) (omega arith)
  | inr (room, e) ↦ rw (e, members) (h id room e).1
]

pub partner-room :
    (r : RoomRegistry) (p q : PeerId)
    → partner r p ≡ some q
    → (id : Text) × (get r.peer_room p ≡ some id) × (find (others p) (members r.rooms id) ≡ some q)
unfolding partner members
partner-room r p q e = elim (Option-cases (get r.peer_room p)) [
  | inl out ↦ ground arith
  | inr (id, at) ↦ (id, at, ground arith)
]

-- After `enter`, the partner of a peer that the index sends to the room.
partner-enter :
    (r : RoomRegistry) (p s : PeerId) (id : Text) (now : ℕ) (room : Room)
    → get (insert r.peer_room p id) s ≡ some id
    → partner (enter r p id now room) s ≡ find (others s) (room.peers ++ p ∷ [])
unfolding enter
partner-enter r p s id now room at =
    rw (partner-members (enter r p id now room) s id at)
      (ground (arith, members-enter r p id id now room))

module _ (r : RoomRegistry) (h : IsConsistent r) where
  -- In a consistent registry partners are mutual: if `q` is the partner of `p`, then `p` is the
  -- partner of `q`.
  pub partner_symmetric : (p q : PeerId) → partner r p ≡ some q → partner r q ≡ some p
  partner_symmetric p q e =
      let (id, at, other) = partner-room r p q e in
      let inside = find-others-contains (members r.rooms id) p q other in
      rw (partner-members r q id (h.exact id q inside)) (
        find-others-pair (members r.rooms id) p q (few-members r id h.bounded) (h.indexed p id at)
          inside (find-others-ne (members r.rooms id) p q other))

  -- In a consistent registry a peer that is in no room and joins a room with one member is paired
  -- with that member: `join` answers `joined`, and each is then the partner of the other.
  pub join_pairs :
      (p q : PeerId) (id : Text) (now : ℕ) (room : Room)
      → get r.rooms id ≡ some room
      → room.peers ≡ q ∷ []
      → get r.peer_room p ≡ none
      → ((join r p id now).1 ≡ joined)
        × (partner (join r p id now).0 p ≡ some q)
        × (partner (join r p id now).0 q ≡ some p)
  unfolding join find
  join_pairs p q id now room found alone free =
      let few : leb 2 (length room.peers) ≡ false = rw alone refl in
      let inside : contains (members r.rooms id) q ≡ true =
        ground (arith, members-eq_of_get r.rooms id room found, contains-single q q) in
      let at : get r.peer_room q ≡ some id = h.exact id q inside in
      let there : get (insert r.peer_room p id) q ≡ some id =
        ground (arith, get-insert r.peer_room p q id) in
      let here : get (insert r.peer_room p id) p ≡ some id =
        ground (arith, get-insert r.peer_room p p id) in
      rw (found, join, few)
        (
          refl,
          rw (partner-enter r p p id now room here, alone) (ground arith),
          rw (partner-enter r p q id now room there, alone) (ground arith),
        )
