-- ===== src/System/Connect.antt =====
-- Two pages of app.rs find each other through the server of ws.rs.
use file_send.Prelude.{Text, text, nat_key, text_key, ℕ, ◌≡◌, refl, true, none, some, [], ◌∷◌}
use file_send.HashMap.{get}
use file_send.Float.{F64}
use file_send.Wire.{SignalMsg, Json}
use file_send.Rooms.{Room}
use file_send.Rooms.Pairs.{IsConsistent}
use file_send.Limiter.{allowed}
use file_send.Server.{AppState, Env, handle_message, relay}
use file_send.Webrtc.{ok, SdpType, new_peer_connection, create_offer, create_answer, set_remote}
use file_send.Client.{applying_answer}
use file_send.System.{End, connect_pages}
use file_send.System.Rounds.{AreIdle, AreIdle-sym, join_round, relay_round}
use file_send.System.Pages.{
  connected_to, offering_on, opens_and_joins, hears-joined, hears-offer, hears-answer,
}

-- In a consistent server, a page whose hash names the room in which another page waits alone opens
-- its socket, within the budget of its address and in no room, both with empty queues and browsers
-- that build a connection and make the offer and the answer. Then no step panics or waits for a
-- message: the waiting page ends on its new connection and applies to it the very answer of the
-- joining page, the joining page ends on its own one, having answered the offer, both sessions know
-- of them, and the server has paired the two and keeps nothing queued.
pub pages_connect :
    {F J : Type 0} ⦃f64 : F64 F⦄ (json : Json SignalMsg) (e : Env) (s : AppState)
    (joiner waiting : End F J) (id : Text) (room : Room) (pj pw : ℕ) (offered answered : Text)
    → IsConsistent s.registry
    → (allowed s.join_limiter joiner.ip e.now_ms).1 ≡ true
    → get s.registry.rooms id ≡ some room
    → room.peers ≡ waiting.peer ∷ []
    → get s.registry.peer_room joiner.peer ≡ none
    → get s.senders joiner.peer ≡ some []
    → get s.senders waiting.peer ≡ some []
    → joiner.client.session.room_in_hash ≡ some id
    → joiner.client.signaling ≡ true
    → waiting.client.signaling ≡ true
    → new_peer_connection joiner.host.browser joiner.client.built ≡ ok pj
    → new_peer_connection waiting.host.browser waiting.client.built ≡ ok pw
    → create_offer waiting.host.browser pw ≡ ok offered
    → set_remote joiner.host.browser pj SdpType.offer offered ≡ ok tt
    → create_answer joiner.host.browser pj (some offered) ≡ ok answered
    → (t : AppState) × (connect_pages json e s joiner waiting
        ≡ some (
          t,
          record joiner { client = connected_to joiner.client pj },
          record waiting { client = offering_on waiting.client pw },
          applying_answer pw answered ∷ [],
        ))
      × AreIdle t joiner.peer waiting.peer
unfolding connect_pages
pages_connect json e s joiner waiting id room pj pw offered answered h may found alone free quiet
      empty at online online' built built' makes takes answers =
    let p = joiner.peer in
    let q = waiting.peer in
    let offer = SignalMsg.sdp offered (text "offer") in
    let answer = SignalMsg.sdp answered (text "answer") in
    let (t₁, popped₁, idle₁) =
      join_round e s p q joiner.ip id room h may found alone free quiet empty in
    let (t₂, popped₂, idle₂) = relay_round t₁ q p offer (AreIdle-sym t₁ p q idle₁) in
    let (t₃, popped₃, idle₃) = relay_round t₂ p q answer (AreIdle-sym t₂ q p idle₂) in
    let s₁ = handle_message e s p joiner.ip (SignalMsg.join id) in
    (
      t₃,
      rw (opens_and_joins json e s s joiner id at online, connect_pages)
          (rw (hears-joined json e s₁ t₁ waiting pw offered popped₁ online' built' makes) (
            rw
              (hears-offer json e (relay t₁ q offer) t₂ joiner pj offered answered popped₂ online
                built takes answers)
              (rw
                (hears-answer json e (relay t₂ p answer) t₃
                  (record waiting { client = offering_on waiting.client pw }) pw answered popped₃
                  refl refl)
                refl))),
      idle₃,
    )
