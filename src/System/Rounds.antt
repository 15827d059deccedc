-- ===== src/System/Rounds.antt =====
-- One message through the server of ws.rs: sent, relayed, and taken from the queue of its receiver.
use file_send.Prelude.{
  Text, nat_key, text_key, ◌≡◌, refl, ◌∙◌, ap, ◌==◌, true, false, none, some, [], ◌∷◌, arith,
}
use file_send.HashMap.{get}
use file_send.HashMap.Laws.{get-insert}
use file_send.Rooms.{PeerId, Room, join, partner}
use file_send.Rooms.Pairs.{IsConsistent, join_pairs}
use file_send.Limiter.{IpAddr, allowed}
use file_send.Wire.{SignalMsg}
use file_send.Server.{AppState, Env, send_to, relay, handle_message, drain, drain_entry}
use file_send.Server.Queues.{send_to_frame, get-send_to_ne, get-send_to_self}
use file_send.Server.Departure.{partner-ne}
use file_send.Server.Handshake.{on_join-joined, relay-paired}

-- Two peers that are partners and whose queues are empty.
pub record AreIdle (s : AppState) (p q : PeerId) : Type 0 where
  pub mine : partner s.registry p ≡ some q
  pub yours : partner s.registry q ≡ some p
  pub apart : (p == q) ≡ false
  pub quiet : get s.senders p ≡ some []
  pub empty : get s.senders q ≡ some []

pub AreIdle-sym : (s : AppState) (p q : PeerId) → AreIdle s p q → AreIdle s q p
AreIdle-sym s p q h = record {
  mine = h.yours;
  yours = h.mine;
  apart = ground arith;
  quiet = h.empty;
  empty = h.quiet;
}

-- A message to an empty queue, taken from it again.
pub drain-send_to :
    (s : AppState) (q : PeerId) (msg : SignalMsg)
    → get s.senders q ≡ some []
    → (drain (send_to s q msg) q).1 ≡ some msg
unfolding drain drain_entry
drain-send_to s q msg empty = rw (get-send_to_self s q msg [] empty, drain) refl

module _ (s : AppState) (p q : PeerId) (msg : SignalMsg) where
  drained-AreIdle :
      partner s.registry p ≡ some q
      → partner s.registry q ≡ some p
      → (p == q) ≡ false
      → get s.senders p ≡ some []
      → get s.senders q ≡ some []
      → AreIdle (drain (send_to s q msg) q).0 p q
  unfolding drain drain_entry
  drained-AreIdle mine yours apart quiet empty =
      let sent = send_to s q msg in
      let same = (send_to_frame s q msg).0 in
      rw (get-send_to_self s q msg [] empty, drain)
        (record {
          mine = ap (λ r. partner r p) same ∙ mine;
          yours = ap (λ r. partner r q) same ∙ yours;
          apart = apart;
          quiet = ground (arith, get-insert sent.senders q p [], get-send_to_ne s q msg p);
          empty = ground (arith, get-insert sent.senders q q []);
        })

-- A description or a candidate reaches the partner, and the queues are empty again.
pub relay_round :
    (s : AppState) (p q : PeerId) (msg : SignalMsg)
    → AreIdle s p q
    → (t : AppState) × (drain (relay s p msg) q ≡ (t, some msg)) × AreIdle t p q
relay_round s p q msg h = (
  (drain (send_to s q msg) q).0,
  rw (relay-paired s p q msg h.mine)
      (λ i. ((drain (send_to s q msg) q).0, drain-send_to s q msg h.empty i)),
  drained-AreIdle s p q msg h.mine h.yours h.apart h.quiet h.empty,
)

-- A peer that joins the room in which another waits: that one hears of it.
pub join_round :
    (e : Env) (s : AppState) (p q : PeerId) (ip : IpAddr) (id : Text) (room : Room)
    → IsConsistent s.registry
    → (allowed s.join_limiter ip e.now_ms).1 ≡ true
    → get s.registry.rooms id ≡ some room
    → room.peers ≡ q ∷ []
    → get s.registry.peer_room p ≡ none
    → get s.senders p ≡ some []
    → get s.senders q ≡ some []
    → (t : AppState) × (drain (handle_message e s p ip (SignalMsg.join id)) q
        ≡ (t, some SignalMsg.peer_joined))
      × AreIdle t p q
unfolding handle_message
join_round e s p q ip id room h may found alone free quiet empty =
    let (_, mine, yours) = join_pairs s.registry h p q id e.now_ms room found alone free in
    let base : AppState = record s {
      join_limiter = (allowed s.join_limiter ip e.now_ms).0;
      registry = (join s.registry p id e.now_ms).0;
    } in
    (
      (drain (send_to base q SignalMsg.peer_joined) q).0,
      rw (on_join-joined s p q ip id e.now_ms room h may found alone free) (λ i. (
        (drain (send_to base q SignalMsg.peer_joined) q).0,
        drain-send_to base q SignalMsg.peer_joined empty i,
      )),
      drained-AreIdle base p q SignalMsg.peer_joined mine yours (partner-ne base.registry p q mine)
          quiet empty,
    )

-- A message to the sender itself, taken from its queue again.
pub own_round :
    (s : AppState) (p : PeerId) (msg : SignalMsg)
    → get s.senders p ≡ some []
    → (t : AppState) × (drain (send_to s p msg) p ≡ (t, some msg))
      × (t.registry ≡ s.registry)
      × (t.join_limiter ≡ s.join_limiter)
      × (get t.senders p ≡ some [])
unfolding drain drain_entry
own_round s p msg quiet =
    let sent = send_to s p msg in
    let queued = get-send_to_self s p msg [] quiet in
    let (same, limits, _) = send_to_frame s p msg in
    (
      (drain sent p).0,
      (λ i. ((drain sent p).0, drain-send_to s p msg quiet i)),
      rw (queued, drain) same,
      rw (queued, drain) limits,
      rw (queued, drain) (ground (arith, get-insert sent.senders p p [])),
    )
