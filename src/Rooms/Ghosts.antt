-- ===== src/Rooms/Ghosts.antt =====
-- What rooms.rs does with a peer that creates or joins while it is still in a room.
use file_send.Prelude.{
  retain, find, others, Text, nat_key, text_key, ℕ, ◌≡◌, refl, ◌≢◌, none, some, [], ◌∷◌, arith,
}
use file_send.HashMap.{get, insert, remove}
use file_send.HashMap.Laws.{get-insert, get-remove}
use file_send.Rooms.{
  PeerId, joined, full, Room, RoomRegistry, create, enter, join, partner, leave, remove_peer,
}
use file_send.Rooms.Members.{members, members-create}
use file_send.Rooms.Departure.{remove_peer-out}

-- The last member's departure takes the room away.
remove_peer-alone :
    (s : RoomRegistry) (p : PeerId) (b : Text) (room : Room)
    → get s.peer_room p ≡ some b
    → get s.rooms b ≡ some room
    → room.peers ≡ p ∷ []
    → (remove_peer s p).0 ≡ record { rooms = remove s.rooms b; peer_room = remove s.peer_room p }
unfolding remove_peer leave retain
remove_peer-alone s p b room at found alone =
    let bare : retain (others p) room.peers ≡ [] = rw alone (ground arith) in
    rw (at, remove_peer, found) (rw (leave, bare) refl)

module _ (r : RoomRegistry) (p : PeerId) (a b : Text) (t u : ℕ) where
  remove-create_twice : (remove_peer (create (create r p a t).0 p b u).0 p).0 ≡ record {
    rooms = remove (create (create r p a t).0 p b u).0.rooms b;
    peer_room = remove (create (create r p a t).0 p b u).0.peer_room p;
  }
  unfolding create
  remove-create_twice =
      remove_peer-alone (create (create r p a t).0 p b u).0 p b
        (record { peers = p ∷ []; last_activity_ms = u })
        (ground (arith, get-insert (create r p a t).0.peer_room p p b))
        (ground (
          arith,
          get-insert (create r p a t).0.rooms b b (record { peers = p ∷ []; last_activity_ms = u }),
        ))
        refl

  -- A peer that creates a room under `a` and then one under another id `b`, and leaves, stays the
  -- only member of `a`: the index has no entry for it any more, and the room has it still.
  pub ghost_stays :
      a ≢ b
      → (get (remove_peer (create (create r p a t).0 p b u).0 p).0.peer_room p ≡ none)
        × (members (remove_peer (create (create r p a t).0 p b u).0 p).0.rooms a ≡ p ∷ [])
  unfolding members
  ghost_stays ne = (
    remove_peer-out (create (create r p a t).0 p b u).0 p,
    rw remove-create_twice (
        ground (
          arith,
          get-remove (create (create r p a t).0 p b u).0.rooms b a,
          members-create (create r p a t).0 p b a u,
          members-create r p a a t,
        )),
  )

-- A peer that joins the room that it alone is in takes the second place too: it has no partner, and
-- any further peer is told that the room is full.
pub self_join_fills :
    (r : RoomRegistry) (p q : PeerId) (id : Text) (t u v : ℕ)
    → let once = (create r p id t).0 in
      let both = (join once p id u).0 in
      ((join once p id u).1 ≡ joined) × (partner both p ≡ none) × ((join both q id v).1 ≡ full)
unfolding create join enter partner find
self_join_fills r p q id t u v = ground (
  arith,
  get-insert r.rooms id id (record { peers = p ∷ []; last_activity_ms = t }),
  get-insert r.peer_room p p id,
  get-insert (insert r.peer_room p id) p p id,
  get-insert (insert r.rooms id (record { peers = p ∷ []; last_activity_ms = t })) id id
      (record { peers = p ∷ p ∷ []; last_activity_ms = u }),
)
