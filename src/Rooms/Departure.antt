-- ===== src/Rooms/Departure.antt =====
-- What rooms.rs keeps of a peer that is removed, and who is told.
use file_send.Prelude.{
  Bool-cases, Option-cases, contains, others, find-others-contains, first-retain, retain, find,
  length, true, List, [], ◌∷◌, ℕ, ◌≤◌, Text, nat_key, text_key, ◌≡◌, refl, ◌≢◌, inl, inr, ite,
  false, none, some, arith,
}
use file_send.HashMap.{get}
use file_send.HashMap.Laws.{get-remove, get-insert}
use file_send.Rooms.{PeerId, Room, RoomRegistry, partner, leave, remove_peer}
use file_send.Rooms.Members.{members, members-eq_of_get}
use file_send.Rooms.Bounds.{remove_peer-IsBounded}
use file_send.Rooms.Index.{remove_peer-IsIndexed}
use file_send.Rooms.Exact.{remove_peer-IsExact}
use file_send.Rooms.Pairs.{IsConsistent, partner-room}

module _ (r : RoomRegistry) (p : PeerId) where
  -- `remove` reports exactly the peer that `partner` would have answered before the removal, in
  -- every registry.
  pub remove_peer-partner : (remove_peer r p).1 ≡ partner r p
  unfolding remove_peer partner
  remove_peer-partner = elim (Option-cases (get r.peer_room p)) [
    | inl e ↦ rw (e, remove_peer) refl
    | inr (id, e) ↦ elim (Option-cases (get r.rooms id)) [
      | inl gone ↦ rw (e, remove_peer, gone) refl
      | inr (room, found) ↦ rw (e, remove_peer, found) (first-retain (others p) room.peers)
    ]
  ]

  -- The index loses the peer's entry and no other.
  pub peer_room-remove_peer :
      (q : PeerId)
      → get (remove_peer r p).0.peer_room q ≡ ite (nat_key.same p q) none (get r.peer_room q)
  unfolding remove_peer
  peer_room-remove_peer q = elim (Option-cases (get r.peer_room p)) [
    | inl e ↦ rw (e, remove_peer) (ground arith)
    | inr (id, e) ↦ elim (Option-cases (get r.rooms id)) [
      | inl gone ↦ rw (e, remove_peer, gone) (get-remove r.peer_room p q)
      | inr (room, found) ↦ rw (e, remove_peer, found) (get-remove r.peer_room p q)
    ]
  ]

  pub remove_peer-out : get (remove_peer r p).0.peer_room p ≡ none
  remove_peer-out = ground (arith, peer_room-remove_peer p)

  -- In a consistent registry a removed peer is in no room and is nobody's partner any more.
  pub remove_peer_forgets :
      IsConsistent r
      → ((id : Text) → contains (members (remove_peer r p).0.rooms id) p ≡ false)
        × ((q : PeerId) → partner (remove_peer r p).0 q ≢ some p)
  remove_peer_forgets h = (
    λ id. absent id,
    λ q e.
        let (id, at, other) = partner-room r' q p e in
        let inside = find-others-contains (members r'.rooms id) q p other in
        ground (arith, absent id, inside),
  )
    where
      r' : RoomRegistry
      r' = (remove_peer r p).0

      absent : (id : Text) → contains (members r'.rooms id) p ≡ false
      absent id = elim (Bool-cases (contains (members r'.rooms id) p)) [
        | inl in_room ↦
            ground (arith, remove_peer-out, remove_peer-IsExact r p h.exact id p in_room)
        | inr out ↦ out
      ]

others_left :
    (xs : List ℕ) (p q : ℕ)
    → length xs ≤ 2
    → contains xs p ≡ true
    → find (others p) xs ≡ some q
    → retain (others p) xs ≡ q ∷ []
unfolding contains find retain
others_left [] p q few inside other = ground arith
others_left (x ∷ []) p q few inside other = ground arith
others_left (x ∷ y ∷ []) p q few inside other = ground arith
others_left (x ∷ y ∷ z ∷ xs) p q few inside other = absurd (omega arith)

-- In a consistent registry a peer with a partner leaves it alone in their room.
pub remove_peer-alone :
    (r : RoomRegistry) (p q : PeerId) (id : Text)
    → IsConsistent r
    → get r.peer_room p ≡ some id
    → partner r p ≡ some q
    → (room : Room) × (get (remove_peer r p).0.rooms id ≡ some room) × (room.peers ≡ q ∷ [])
unfolding remove_peer leave partner
remove_peer-alone r p q id h at paired = elim (Option-cases (get r.rooms id)) [
  | inl gone ↦ ground (arith, at, gone, paired)
  | inr (room, found) ↦
      let same : members r.rooms id ≡ room.peers = members-eq_of_get r.rooms id room found in
      let rest : retain (others p) room.peers ≡ q ∷ [] =
        others_left room.peers p q (h.bounded id room found).1
          (ground (arith, same, h.indexed p id at)) (ground (arith, at, found, paired)) in
      (
        record room { peers = q ∷ [] },
        rw (at, remove_peer, found, rest, leave)
            (ground (arith, get-insert r.rooms id id (record room { peers = q ∷ [] }))),
        refl,
      )
]

pub remove_peer-IsConsistent :
    (r : RoomRegistry) (p : PeerId) → IsConsistent r → IsConsistent (remove_peer r p).0
remove_peer-IsConsistent r p h = record {
  bounded = remove_peer-IsBounded r p h.bounded;
  indexed = remove_peer-IsIndexed r p h.indexed;
  exact = remove_peer-IsExact r p h.exact;
}
