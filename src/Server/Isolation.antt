-- ===== src/Server/Isolation.antt =====
-- Whose queue a message of ws.rs reaches.
use file_send.Server.Moves.{settle-registry, relay-registry}
use file_send.Prelude.{
  Bool-cases, Option-cases, Text, nat_key, text_key, ℕ, ◌≡◌, refl, sym, ap, ◌∙◌, subst, ◌≢◌, inl,
  inr, some, arith,
}
use file_send.HashMap.{get}
use file_send.Rooms.{PeerId, JoinOutcome, joined, full, not_found, RoomRegistry, create, partner}
use file_send.Limiter.{IpAddr, ip_key, allowed}
use file_send.Server.{
  AppState, Env, announce, create_room, check, fail, reclaim_check, on_reclaim, settle, on_join,
  relay, handle_message,
}
use file_send.Server.Queues.{get-send_to_ne}
use file_send.Wire.{SignalMsg}

-- The queues of all peers but `peer` and its partner in `t` are those of `s`.
abbrev pub OnlyTouches : AppState → PeerId → AppState → Type 0
OnlyTouches s peer t =
    (q : PeerId) → q ≢ peer → partner t.registry peer ≢ some q → get t.senders q ≡ get s.senders q

create_room-OnlyTouches :
    (s : AppState) (peer : PeerId) (room : Text) (now : ℕ)
    → OnlyTouches s peer (create_room s peer room now)
unfolding create_room announce create
create_room-OnlyTouches s peer room now q ne other =
    get-send_to_ne _ peer (SignalMsg.created room) q ne

on_reclaim-OnlyTouches :
    (s : AppState) (peer : PeerId) (ip : IpAddr) (room : Text) (now : ℕ)
    → OnlyTouches s peer (on_reclaim s peer ip room now)
unfolding on_reclaim reclaim_check check
on_reclaim-OnlyTouches s peer ip room now q ne other = ground (
  arith,
  create_room-OnlyTouches (check s ip now).0 peer room now q ne,
  get-send_to_ne (check s ip now).0 peer SignalMsg.room_not_found q ne,
  get-send_to_ne (fail (check s ip now).0 ip now) peer SignalMsg.room_not_found q ne,
)

settle-OnlyTouches :
    (s : AppState) (peer : PeerId) (ip : IpAddr) (now : ℕ) (o : JoinOutcome) (q : PeerId)
    → q ≢ peer
    → partner s.registry peer ≢ some q
    → get (settle s peer ip now o).senders q ≡ get s.senders q
unfolding settle fail
settle-OnlyTouches s peer ip now joined q ne other = elim (Option-cases (partner s.registry peer)) [
  | inl e ↦ rw (e, settle) refl
  | inr (p, e) ↦
      rw (e, settle)
        (get-send_to_ne s p SignalMsg.peer_joined q (λ same. other (e ∙ ap some (sym same))))
]
settle-OnlyTouches s peer ip now full q ne other =
    get-send_to_ne (fail s ip now) peer SignalMsg.room_full q ne
settle-OnlyTouches s peer ip now not_found q ne other =
    get-send_to_ne (fail s ip now) peer SignalMsg.room_not_found q ne
settle-OnlyTouches s peer ip now (JoinOutcome.created _) q ne other = refl

on_join-OnlyTouches :
    (s : AppState) (peer : PeerId) (ip : IpAddr) (room : Text) (now : ℕ)
    → OnlyTouches s peer (on_join s peer ip room now)
unfolding on_join check
on_join-OnlyTouches s peer ip room now q ne = elim (Bool-cases (allowed s.join_limiter ip now).1) [
  | inl may ↦
      rw (may, on_join)
        (λ other. settle-OnlyTouches _ peer ip now _ q ne (
          subst (λ (r : RoomRegistry). partner r peer ≢ some q) (settle-registry _ peer ip now _)
            other))
  | inr over ↦ rw (over, on_join) (λ other. get-send_to_ne _ peer SignalMsg.room_not_found q ne)
]

relay-OnlyTouches :
    (s : AppState) (peer : PeerId) (msg : SignalMsg) → OnlyTouches s peer (relay s peer msg)
unfolding relay
relay-OnlyTouches s peer msg q ne other =
    let other' : partner s.registry peer ≢ some q =
      subst (λ (r : RoomRegistry). partner r peer ≢ some q) (relay-registry s peer msg) other in
    elim (Option-cases (partner s.registry peer)) [
      | inl e ↦ rw (e, relay) refl
      | inr (p, e) ↦
          rw (e, relay) (get-send_to_ne s p msg q (λ same. other' (e ∙ ap some (sym same))))
    ]

-- A message reaches no queue but those of its sender and of the sender's partner after it.
pub handle_message-OnlyTouches :
    (e : Env) (s : AppState) (peer : PeerId) (ip : IpAddr) (msg : SignalMsg)
    → OnlyTouches s peer (handle_message e s peer ip msg)
unfolding handle_message
handle_message-OnlyTouches e s peer ip SignalMsg.create =
    create_room-OnlyTouches s peer e.gen_room_id e.now_ms
handle_message-OnlyTouches e s peer ip (SignalMsg.reclaim room) =
    on_reclaim-OnlyTouches s peer ip room e.now_ms
handle_message-OnlyTouches e s peer ip (SignalMsg.join room) =
    on_join-OnlyTouches s peer ip room e.now_ms
handle_message-OnlyTouches e s peer ip (SignalMsg.sdp description kind) =
    relay-OnlyTouches s peer (SignalMsg.sdp description kind)
handle_message-OnlyTouches e s peer ip (SignalMsg.ice candidate) =
    relay-OnlyTouches s peer (SignalMsg.ice candidate)
handle_message-OnlyTouches e s peer ip _ = λ q ne other. refl
