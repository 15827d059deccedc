-- ===== src/Server/Queues.antt =====
-- The queues of ws.rs after a message is sent.
use file_send.Prelude.{
  Option-cases, nat_key, text_key, ◌≡◌, refl, ◌≢◌, inl, inr, some, List, [], ◌∷◌, ◌++◌, arith,
}
use file_send.HashMap.{get, contains_key}
use file_send.HashMap.Laws.{get-insert}
use file_send.Rooms.{PeerId}
use file_send.Server.{AppState, send_to}
use file_send.Wire.{SignalMsg}

module _ (s : AppState) (peer : PeerId) (msg : SignalMsg) where
  -- Sending changes nothing but the queues.
  pub send_to_frame :
      ((send_to s peer msg).registry ≡ s.registry)
      × ((send_to s peer msg).join_limiter ≡ s.join_limiter)
      × ((send_to s peer msg).next_id ≡ s.next_id)
  unfolding send_to
  send_to_frame = ground arith

  pub get-send_to_ne :
      (q : PeerId) → q ≢ peer → get (send_to s peer msg).senders q ≡ get s.senders q
  unfolding send_to
  get-send_to_ne q ne = elim (Option-cases (get s.senders peer)) [
    | inl e ↦ rw (e, send_to) refl
    | inr (tx, e) ↦ rw (e, send_to) (ground (arith, get-insert s.senders peer q (tx ++ msg ∷ [])))
  ]

  pub get-send_to_self :
      (tx : List SignalMsg)
      → get s.senders peer ≡ some tx
      → get (send_to s peer msg).senders peer ≡ some (tx ++ msg ∷ [])
  unfolding send_to
  get-send_to_self tx e =
      rw (e, send_to) (ground (arith, get-insert s.senders peer peer (tx ++ msg ∷ [])))

  -- No peer gets or loses a queue.
  pub contains_key-send_to :
      (q : PeerId) → contains_key (send_to s peer msg).senders q ≡ contains_key s.senders q
  unfolding send_to contains_key
  contains_key-send_to q = elim (Option-cases (get s.senders peer)) [
    | inl e ↦ rw (e, send_to) refl
    | inr (tx, e) ↦ rw (e, send_to) (ground (arith, get-insert s.senders peer q (tx ++ msg ∷ [])))
  ]
