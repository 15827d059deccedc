-- ===== src/Server/Departure.antt =====
-- What ws.rs leaves of a peer whose socket is gone.
use file_send.HashMap.Laws.{get-remove}
use file_send.Rooms.Departure.{remove_peer-partner, remove_peer_forgets}
use file_send.Server.Queues.{send_to_frame, get-send_to_ne, get-send_to_self, contains_key-send_to}
use file_send.Prelude.{
  ◌==◌, if◌then◌else◌, contains, find-others-ne, Text, nat_key, text_key, ◌≡◌, refl, ◌∙◌, ◌≢◌, ite,
  false, Option, none, some, List, [], ◌∷◌, ◌++◌, arith,
}
use file_send.HashMap.{get, contains_key}
use file_send.Rooms.{PeerId, RoomRegistry, partner, remove_peer}
use file_send.Rooms.Members.{members}
use file_send.Rooms.Pairs.{IsConsistent, partner-room}
use file_send.Limiter.{ip_key}
use file_send.Wire.{SignalMsg}
use file_send.Server.{AppState, notify_left, disconnect}

notify_left-registry : (s : AppState) (o : Option PeerId) → (notify_left s o).registry ≡ s.registry
unfolding notify_left
notify_left-registry s none = refl
notify_left-registry s (some q) = (send_to_frame s q SignalMsg.peer_left).0

notify_left-rest :
    (s : AppState) (o : Option PeerId)
    → ((notify_left s o).join_limiter ≡ s.join_limiter) × ((notify_left s o).next_id ≡ s.next_id)
unfolding notify_left
notify_left-rest s none = (refl, refl)
notify_left-rest s (some q) =
    ((send_to_frame s q SignalMsg.peer_left).1, (send_to_frame s q SignalMsg.peer_left).2)

contains_key-notify_left :
    (s : AppState) (o : Option PeerId) (x : PeerId)
    → contains_key (notify_left s o).senders x ≡ contains_key s.senders x
unfolding notify_left
contains_key-notify_left s none x = refl
contains_key-notify_left s (some q) x = contains_key-send_to s q SignalMsg.peer_left x

pub partner-ne : (r : RoomRegistry) (p q : PeerId) → partner r p ≡ some q → (p == q) ≡ false
partner-ne r p q e =
    let (id, at, other) = partner-room r p q e in find-others-ne (members r.rooms id) p q other

module _ (s : AppState) (p : PeerId) where
  pub disconnect-registry : (disconnect s p).registry ≡ (remove_peer s.registry p).0
  unfolding disconnect
  disconnect-registry = notify_left-registry _ (remove_peer s.registry p).1

  pub disconnect-rest :
      ((disconnect s p).join_limiter ≡ s.join_limiter) × ((disconnect s p).next_id ≡ s.next_id)
  unfolding disconnect
  disconnect-rest = notify_left-rest _ (remove_peer s.registry p).1

  pub contains_key-disconnect :
      (x : PeerId)
      → contains_key (disconnect s p).senders x
        ≡ (if p == x then false else contains_key s.senders x)
  unfolding disconnect contains_key
  contains_key-disconnect x = ground (
    arith,
    get-remove
        (notify_left (record s { registry = (remove_peer s.registry p).0 })
          (remove_peer s.registry p).1).senders
        p x,
    contains_key-notify_left (record s { registry = (remove_peer s.registry p).0 })
        (remove_peer s.registry p).1 x,
  )

  pub get-disconnect :
      (o : Option PeerId) (x : PeerId)
      → (remove_peer s.registry p).1 ≡ o
      → get (disconnect s p).senders x
        ≡ ite
            (nat_key.same p x)
            none
            (get (notify_left (record s { registry = (remove_peer s.registry p).0 }) o).senders x)
  unfolding disconnect
  get-disconnect o x e = rw e (get-remove _ p x)

  -- When a peer of a consistent server disconnects, the queue of its partner gets exactly one
  -- `PeerLeft` at its end, every other queue but its own is as it was, its own is gone, and it is
  -- in no room and nobody's partner any more.
  pub disconnect_notifies :
      (q : PeerId) (tx : List SignalMsg)
      → IsConsistent s.registry
      → partner s.registry p ≡ some q
      → get s.senders q ≡ some tx
      → (get (disconnect s p).senders q ≡ some (tx ++ SignalMsg.peer_left ∷ []))
        × ((x : PeerId) → x ≢ p → x ≢ q → get (disconnect s p).senders x ≡ get s.senders x)
        × (get (disconnect s p).senders p ≡ none)
        × ((id : Text) → contains (members (disconnect s p).registry.rooms id) p ≡ false)
        × ((x : PeerId) → partner (disconnect s p).registry x ≢ some p)
  unfolding notify_left
  disconnect_notifies q tx h paired at =
      let left = record s { registry = (remove_peer s.registry p).0 } in
      let told : (remove_peer s.registry p).1 ≡ some q =
        remove_peer-partner s.registry p ∙ paired in
      (
        ground (
          arith,
          get-disconnect (some q) q told,
          get-send_to_self left q SignalMsg.peer_left tx at,
          partner-ne s.registry p q paired,
        ),
        λ x apart far. ground (
          arith,
          get-disconnect (some q) x told,
          get-send_to_ne left q SignalMsg.peer_left x far,
        ),
        ground (arith, get-disconnect (some q) p told),
        λ id. rw disconnect-registry ((remove_peer_forgets s.registry p h).0 id),
        λ x. rw disconnect-registry ((remove_peer_forgets s.registry p h).1 x),
      )
