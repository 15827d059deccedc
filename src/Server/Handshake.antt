-- ===== src/Server/Handshake.antt =====
-- The handshake that ws.rs brokers between two peers of a room.
use file_send.Server.Queues.{send_to_frame, get-send_to_ne, get-send_to_self}
use file_send.Server.Departure.{partner-ne}
use file_send.Prelude.{
  Text, text, nat_key, text_key, ℕ, ◌≡◌, refl, ◌∙◌, true, none, some, List, [], ◌∷◌, ◌++◌, arith,
}
use file_send.HashMap.{get}
use file_send.Rooms.{PeerId, Room, join, partner}
use file_send.Rooms.Pairs.{IsConsistent, join_pairs}
use file_send.Limiter.{IpAddr, ip_key, allowed}
use file_send.Wire.{SignalMsg}
use file_send.Server.{AppState, Env, send_to, check, settle, on_join, relay, handle_message}

-- `Join` of a room with one waiting peer, within the budget.
pub on_join-joined :
    (s : AppState) (p q : PeerId) (ip : IpAddr) (id : Text) (now : ℕ) (room : Room)
    → IsConsistent s.registry
    → (allowed s.join_limiter ip now).1 ≡ true
    → get s.registry.rooms id ≡ some room
    → room.peers ≡ q ∷ []
    → get s.registry.peer_room p ≡ none
    → on_join s p ip id now
      ≡ send_to
          (record s {
            join_limiter = (allowed s.join_limiter ip now).0;
            registry = (join s.registry p id now).0;
          })
          q
          SignalMsg.peer_joined
unfolding on_join check settle
on_join-joined s p q ip id now room h may found alone free =
    let (answer, mine, yours) = join_pairs s.registry h p q id now room found alone free in
    rw (may, on_join, answer) (rw (mine, settle) refl)

pub relay-paired :
    (s : AppState) (p q : PeerId) (msg : SignalMsg)
    → partner s.registry p ≡ some q
    → relay s p msg ≡ send_to s q msg
unfolding relay
relay-paired s p q msg e = rw (e, relay) refl

-- The three messages of a handshake: `p` joins the room, `q` sends an offer and `p` an answer.
abbrev pub handshake :
    Env → Env → Env → AppState → PeerId → PeerId → IpAddr → IpAddr → Text → Text → Text → AppState
handshake e₁ e₂ e₃ s p q ip ip' id offer answer =
    let s₁ = handle_message e₁ s p ip (SignalMsg.join id) in
    let s₂ = handle_message e₂ s₁ q ip' (SignalMsg.sdp offer (text "offer")) in
    handle_message e₃ s₂ p ip (SignalMsg.sdp answer (text "answer"))

-- In a consistent server, when a peer within its budget and in no room joins the room in which `q`
-- waits alone, and then `q` sends an offer and it an answer, then `q` is sent `PeerJoined` and the
-- answer, and it is sent the offer, each once, unchanged and in this order.
pub handshake_delivers :
    (e₁ e₂ e₃ : Env) (s : AppState) (p q : PeerId) (ip ip' : IpAddr) (id offer answer : Text)
    (room : Room) (a b : List SignalMsg)
    → IsConsistent s.registry
    → (allowed s.join_limiter ip e₁.now_ms).1 ≡ true
    → get s.registry.rooms id ≡ some room
    → room.peers ≡ q ∷ []
    → get s.registry.peer_room p ≡ none
    → get s.senders p ≡ some a
    → get s.senders q ≡ some b
    → (get (handshake e₁ e₂ e₃ s p q ip ip' id offer answer).senders p
        ≡ some (a ++ SignalMsg.sdp offer (text "offer") ∷ []))
      × (get (handshake e₁ e₂ e₃ s p q ip ip' id offer answer).senders q
          ≡ some ((b ++ SignalMsg.peer_joined ∷ []) ++ SignalMsg.sdp answer (text "answer") ∷ []))
unfolding handle_message
handshake_delivers e₁ e₂ e₃ s p q ip ip' id offer answer room a b h may found alone free at bt =
    let (_, mine, yours) = join_pairs s.registry h p q id e₁.now_ms room found alone free in
    let base = record s {
      join_limiter = (allowed s.join_limiter ip e₁.now_ms).0;
      registry = (join s.registry p id e₁.now_ms).0;
    } in
    let m₂ = SignalMsg.sdp offer (text "offer") in
    let m₃ = SignalMsg.sdp answer (text "answer") in
    let s₁ = send_to base q SignalMsg.peer_joined in
    let s₂ = send_to s₁ p m₂ in
    let same₁ : s₁.registry ≡ base.registry = (send_to_frame base q SignalMsg.peer_joined).0 in
    let same₂ : s₂.registry ≡ base.registry = (send_to_frame s₁ p m₂).0 ∙ same₁ in
    let pair₁ : partner s₁.registry q ≡ some p = rw same₁ yours in
    let pair₂ : partner s₂.registry p ≡ some q = rw same₂ mine in
    let apart = partner-ne base.registry p q mine in
    rw
      (
        on_join-joined s p q ip id e₁.now_ms room h may found alone free,
        relay-paired s₁ q p m₂ pair₁,
        relay-paired s₂ p q m₃ pair₂,
      )
      (
        ground (
          arith,
          apart,
          get-send_to_ne s₂ q m₃ p,
          get-send_to_self s₁ p m₂ a,
          get-send_to_ne base q SignalMsg.peer_joined p,
          at,
        ),
        ground (
          arith,
          apart,
          get-send_to_self s₂ q m₃ (b ++ SignalMsg.peer_joined ∷ []),
          get-send_to_ne s₁ p m₂ q,
          get-send_to_self base q SignalMsg.peer_joined b bt,
        ),
      )
