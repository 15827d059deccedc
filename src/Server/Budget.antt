-- ===== src/Server/Budget.antt =====
-- The failures that the limiter of ws.rs holds.
use file_send.Rooms.{PeerId, JoinOutcome, joined, full, not_found, create, contains_room, partner}
use file_send.Wire.{SignalMsg}
use file_send.Server.Queues.{send_to_frame}
use file_send.Prelude.{
  ltb→lt, Bool-cases, Option-cases, length, retain, length-append, length-retain-le, Text, nat_key,
  text_key, ℕ, ◌≤◌, ◌<◌, ◌≡◌, refl, sym, ◌∙◌, subst, inl, inr, Bool, true, [], ◌∷◌, arith,
}
use file_send.Limiter.{IpAddr, ip_key, JoinLimiter, recent, allowed, record_failure}
use file_send.Limiter.Recorded.{
  recorded, recorded-prune, window-prune, window-record_failure, recorded-record_failure,
  verdict-recorded,
}
use file_send.Server.{
  join_window_ms, join_max_failures, AppState, Env, announce, create_room, check, fail,
  reclaim_check, on_reclaim, settle, on_join, relay, handle_message,
}

-- The limits are the server's constants, and no address has more failures than they allow.
pub record IsWithin (l : JoinLimiter) : Type 0 where
  pub window : l.window_ms ≡ join_window_ms
  pub cap : l.max_failures ≡ join_max_failures
  pub counted : (j : IpAddr) → length (recorded l j) ≤ join_max_failures

allowed-IsWithin :
    (l : JoinLimiter) (ip : IpAddr) (now : ℕ) → IsWithin l → IsWithin (allowed l ip now).0
unfolding allowed
allowed-IsWithin l ip now h = record {
  window = (window-prune l ip ip now).0 ∙ h.window;
  cap = (window-prune l ip ip now).1 ∙ h.cap;
  counted = λ j. ground (
    arith,
    recorded-prune l ip j now,
    h.counted j,
    length-retain-le (recent l.window_ms now) (recorded l j),
  );
}

record_failure-IsWithin :
    (l : JoinLimiter) (ip : IpAddr) (now : ℕ)
    → IsWithin l
    → length (retain (recent l.window_ms now) (recorded l ip)) < join_max_failures
    → IsWithin (record_failure l ip now)
record_failure-IsWithin l ip now h few = record {
  window = (window-record_failure l ip now).0 ∙ h.window;
  cap = (window-record_failure l ip now).1 ∙ h.cap;
  counted = λ j. elim (ip_key.same ip j) [
    | yes same ↦ rw (← same) (
        ground (
          arith,
          recorded-record_failure l ip now ip,
          length-append (retain (recent l.window_ms now) (recorded l ip)) (now ∷ []),
        ))
    | no apart ↦ ground (arith, recorded-record_failure l ip now j, h.counted j)
  ];
}

-- After a check that passed there is room for one more failure, in any window.
few_after_check :
    (l : JoinLimiter) (ip : IpAddr) (now : ℕ) (p : ℕ → Bool)
    → (allowed l ip now).1 ≡ true
    → length (retain p (recorded (allowed l ip now).0 ip)) < l.max_failures
few_after_check l ip now p may =
    let kept : recorded (allowed l ip now).0 ip ≡ retain (recent l.window_ms now) (recorded l ip) =
      unfold allowed in ground (arith, recorded-prune l ip ip now) in
    rw kept (
      omega (
        arith,
        length-retain-le p (retain (recent l.window_ms now) (recorded l ip)),
        ltb→lt _ _ (sym (verdict-recorded l ip now) ∙ may),
      ))

-- A failure that is recorded after a check that passed, at the same time.
pub failed-IsWithin :
    (l : JoinLimiter) (ip : IpAddr) (now : ℕ)
    → IsWithin l
    → (allowed l ip now).1 ≡ true
    → IsWithin (record_failure (allowed l ip now).0 ip now)
failed-IsWithin l ip now h may =
    record_failure-IsWithin (allowed l ip now).0 ip now (allowed-IsWithin l ip now h) (
      subst
        (λ (m : ℕ).
          length
            (retain (recent (allowed l ip now).0.window_ms now) (recorded (allowed l ip now).0 ip))
          < m)
        h.cap (few_after_check l ip now (recent (allowed l ip now).0.window_ms now) may))

settle-IsWithin :
    (s : AppState) (peer : PeerId) (ip : IpAddr) (now : ℕ) (o : JoinOutcome)
    → IsWithin s.join_limiter
    → IsWithin (record_failure s.join_limiter ip now)
    → IsWithin (settle s peer ip now o).join_limiter
unfolding settle fail
settle-IsWithin s peer ip now joined h f = elim (Option-cases (partner s.registry peer)) [
  | inl e ↦ rw (e, settle) h
  | inr (q, e) ↦ rw (e, settle) (subst IsWithin (sym (send_to_frame s q SignalMsg.peer_joined).1) h)
]
settle-IsWithin s peer ip now full h f =
    subst IsWithin (sym (send_to_frame (fail s ip now) peer SignalMsg.room_full).1) f
settle-IsWithin s peer ip now not_found h f =
    subst IsWithin (sym (send_to_frame (fail s ip now) peer SignalMsg.room_not_found).1) f
settle-IsWithin s peer ip now (JoinOutcome.created _) h f = h

on_join-IsWithin :
    (s : AppState) (peer : PeerId) (ip : IpAddr) (room : Text) (now : ℕ)
    → IsWithin s.join_limiter
    → IsWithin (on_join s peer ip room now).join_limiter
unfolding on_join check
on_join-IsWithin s peer ip room now h = elim (Bool-cases (allowed s.join_limiter ip now).1) [
  | inl may ↦
      rw (may, on_join)
        (settle-IsWithin _ peer ip now _ (allowed-IsWithin s.join_limiter ip now h)
          (failed-IsWithin s.join_limiter ip now h may))
  | inr over ↦
      rw (over, on_join)
        (subst IsWithin (sym (send_to_frame _ peer SignalMsg.room_not_found).1)
          (allowed-IsWithin s.join_limiter ip now h))
]

create_room-limiter :
    (s : AppState) (peer : PeerId) (room : Text) (now : ℕ)
    → (create_room s peer room now).join_limiter ≡ s.join_limiter
unfolding create_room announce create
create_room-limiter s peer room now = (send_to_frame _ peer (SignalMsg.created room)).1

on_reclaim-IsWithin :
    (s : AppState) (peer : PeerId) (ip : IpAddr) (room : Text) (now : ℕ)
    → IsWithin s.join_limiter
    → IsWithin (on_reclaim s peer ip room now).join_limiter
unfolding on_reclaim reclaim_check check fail
on_reclaim-IsWithin s peer ip room now h = elim (Bool-cases (allowed s.join_limiter ip now).1) [
  | inl may ↦ elim (Bool-cases (contains_room s.registry room)) [
    | inl live ↦
        rw (may, on_reclaim, live)
          (subst IsWithin (sym (send_to_frame _ peer SignalMsg.room_not_found).1)
            (failed-IsWithin s.join_limiter ip now h may))
    | inr absent ↦
        rw (may, on_reclaim, absent)
          (subst IsWithin (sym (create_room-limiter _ peer room now))
            (allowed-IsWithin s.join_limiter ip now h))
  ]
  | inr over ↦
      rw (over, on_reclaim)
        (subst IsWithin (sym (send_to_frame _ peer SignalMsg.room_not_found).1)
          (allowed-IsWithin s.join_limiter ip now h))
]

relay-limiter :
    (s : AppState) (peer : PeerId) (msg : SignalMsg)
    → (relay s peer msg).join_limiter ≡ s.join_limiter
unfolding relay
relay-limiter s peer msg = elim (Option-cases (partner s.registry peer)) [
  | inl e ↦ rw (e, relay) refl
  | inr (q, e) ↦ rw (e, relay) (send_to_frame s q msg).1
]

pub handle_message-IsWithin :
    (e : Env) (s : AppState) (peer : PeerId) (ip : IpAddr) (msg : SignalMsg)
    → IsWithin s.join_limiter
    → IsWithin (handle_message e s peer ip msg).join_limiter
unfolding handle_message
handle_message-IsWithin e s peer ip SignalMsg.create h =
    subst IsWithin (sym (create_room-limiter s peer e.gen_room_id e.now_ms)) h
handle_message-IsWithin e s peer ip (SignalMsg.reclaim room) h =
    on_reclaim-IsWithin s peer ip room e.now_ms h
handle_message-IsWithin e s peer ip (SignalMsg.join room) h =
    on_join-IsWithin s peer ip room e.now_ms h
handle_message-IsWithin e s peer ip (SignalMsg.sdp description kind) h =
    subst IsWithin (sym (relay-limiter s peer (SignalMsg.sdp description kind))) h
handle_message-IsWithin e s peer ip (SignalMsg.ice candidate) h =
    subst IsWithin (sym (relay-limiter s peer (SignalMsg.ice candidate))) h
handle_message-IsWithin e s peer ip _ h = h
