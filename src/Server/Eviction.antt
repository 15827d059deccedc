-- ===== src/Server/Eviction.antt =====
-- No message of ws.rs, handled as one step, takes a peer out of its room.
use file_send.Prelude.{
  leb, Bool-cases, Option-cases, length, contains, contains-append, contains-nil, Text, nat_key,
  text_key, ℕ, ◌≡◌, inl, inr, true, false, [], ◌∷◌, arith,
}
use file_send.HashMap.{get}
use file_send.Rooms.{PeerId, RoomRegistry, join, contains_room}
use file_send.Rooms.Members.{
  members, members-create, members-enter, members-eq_of_get, members-eq_of_absent,
}
use file_send.Limiter.{IpAddr, ip_key}
use file_send.Server.{AppState, Env, handle_message}
use file_send.Server.Moves.{Move, keeps, creates, joins, create_room-registry, handle_message-Move}
use file_send.Wire.{SignalMsg}

join-keeps :
    (r : RoomRegistry) (peer p : PeerId) (id j : Text) (now : ℕ)
    → contains (members r.rooms j) p ≡ true
    → contains (members (join r peer id now).0.rooms j) p ≡ true
unfolding join
join-keeps r peer p id j now h = elim (Option-cases (get r.rooms id)) [
  | inl e ↦ rw (e, join) h
  | inr (room, e) ↦ elim (Bool-cases (leb 2 (length room.peers))) [
    | inl many ↦ rw (e, join, many) h
    | inr few ↦
        rw (e, join, few)
          (ground (
            arith,
            members-enter r peer id j now room,
            members-eq_of_get r.rooms id room e,
            contains-append room.peers (peer ∷ []) p,
          ))
  ]
]

Move-keeps :
    {r : RoomRegistry} {peer : PeerId} {t : RoomRegistry} (p : PeerId) (j : Text)
    → Move r peer t
    → contains (members r.rooms j) p ≡ true
    → contains (members t.rooms j) p ≡ true
Move-keeps p j keeps h = h
Move-keeps {r} {peer = peer} p j (creates id now absent) h =
    ground (
      arith,
      members-create r peer id j now,
      members-eq_of_absent r.rooms id absent,
      contains-nil p,
    )
Move-keeps {r} {peer = peer} p j (joins id now) h = join-keeps r peer p id j now h

-- If the handler of a message runs as one step, with no other handler between its two locks of the
-- registry, and the code that nanoid draws is not in use, then every peer stays in the rooms that it
-- is in, whatever is sent: such a `Create`, `Reclaim` or `Join` evicts nobody. Two handlers of
-- `Reclaim` that interleave between the locks are not covered.
pub handle_message_keeps_members :
    (e : Env) (s : AppState) (peer : PeerId) (ip : IpAddr) (msg : SignalMsg) (p : PeerId) (j : Text)
    → contains_room s.registry e.gen_room_id ≡ false
    → contains (members s.registry.rooms j) p ≡ true
    → contains (members (handle_message e s peer ip msg).registry.rooms j) p ≡ true
handle_message_keeps_members e s peer ip msg p j fresh h =
    Move-keeps p j (handle_message-Move e s peer ip msg fresh) h

-- If nanoid draws the code of a live room, `Create` does evict: the room then has the new peer
-- alone.
pub collision_evicts :
    (e : Env) (s : AppState) (peer : PeerId) (ip : IpAddr)
    → members (handle_message e s peer ip SignalMsg.create).registry.rooms e.gen_room_id ≡ peer ∷ []
unfolding handle_message
collision_evicts e s peer ip =
    rw (create_room-registry s peer e.gen_room_id e.now_ms)
      (ground (arith, members-create s.registry peer e.gen_room_id e.gen_room_id e.now_ms))
