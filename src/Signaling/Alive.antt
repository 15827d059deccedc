-- ===== src/Signaling/Alive.antt =====
-- The liveness of the reconnecting socket of signaling.rs: a socket is always on its way.
use file_send.Prelude.{
  if◌then◌else◌, Bool-cases, nat_key, text_key, ◌-◌, ◌<◌, ◌≡◌, refl, sym, subst, inl, inr, Bool,
  true, false, ◌||◌, List, [], ◌∷◌, arith,
}
use file_send.Signaling.{
  ReadyState, closed_state, Effect, new_socket, Signaling, connect, schedule_reconnect, is_live,
  reconnect_now, Event, opens, begins_closing, closes, fires, online, handle,
}

-- The state after a list of events.
unfoldable pub run : Signaling → List Event → Signaling
run s [] = s
run s (e ∷ es) = run (handle s e).0 es

-- An open handle whose socket is closed has a reconnect on its way.
unfoldable pub IsAlive : Signaling → Type 0
IsAlive s = s.closed ≡ false → s.ready ≡ closed_state → 0 < s.timers

pub connect-IsAlive : IsAlive connect
unfolding connect IsAlive
connect-IsAlive = λ h c. ground arith

-- A closed socket does not stay.
live_not_closed : (r : ReadyState) → r ≡ closed_state → is_live r ≡ false
live_not_closed r e = subst (λ q. is_live q ≡ false) (sym e) refl

pub reconnect_now-IsAlive : (s : Signaling) (built : Bool) → IsAlive (reconnect_now s built).0
unfolding IsAlive reconnect_now schedule_reconnect
reconnect_now-IsAlive s true = elim (Bool-cases (s.closed || is_live s.ready)) [
  | inl e ↦ rw (e) (λ open_ shut. ground (arith, live_not_closed s.ready shut))
  | inr e ↦ rw (e) (λ open_ shut. ground arith)
]
reconnect_now-IsAlive s false = elim (Bool-cases (s.closed || is_live s.ready)) [
  | inl e ↦ rw (e) (λ open_ shut. ground (arith, live_not_closed s.ready shut))
  | inr e ↦ rw (e) (λ open_ shut. ground arith)
]

pub handle-IsAlive : (s : Signaling) (e : Event) → IsAlive s → IsAlive ((handle s e).0)
unfolding IsAlive handle schedule_reconnect
handle-IsAlive s opens alive = λ o shut. ground arith
handle-IsAlive s begins_closing alive = λ o shut. ground arith
handle-IsAlive s closes alive = elim (Bool-cases s.closed) [
  | inl e ↦ rw (e) (λ o shut. ground arith)
  | inr e ↦ rw (e) (λ o shut. ground arith)
]
handle-IsAlive s (fires built) alive =
    reconnect_now-IsAlive (record s { timers = s.timers - 1 }) built
handle-IsAlive s (online built) alive = elim (Bool-cases (s.closed || is_live s.ready)) [
  | inl e ↦ rw (e) alive
  | inr e ↦
      subst
        (λ b. IsAlive ((if b then (s, []) else reconnect_now (record s { attempt = 0 }) built).0))
        (sym e) (reconnect_now-IsAlive (record s { attempt = 0 }) built)
]

-- From a state where this holds: however the socket opens, closes and fails to build, and whenever
-- timers and `online` events come, an unclosed handle whose socket is closed has a reconnect
-- scheduled.
pub run-IsAlive : (es : List Event) (s : Signaling) → IsAlive s → IsAlive (run s es)
unfolding run
run-IsAlive [] s alive = alive
run-IsAlive (e ∷ es) s alive = run-IsAlive es _ (handle-IsAlive s e alive)

-- Whether a socket is built.
unfoldable pub builds : List Effect → Bool
builds [] = false
builds (new_socket ∷ es) = true
builds (_ ∷ es) = builds es

reconnect_now-single :
    (s : Signaling) (built : Bool)
    → builds (reconnect_now s built).1 ≡ true
    → s.closed || is_live s.ready ≡ false
unfolding reconnect_now schedule_reconnect builds
reconnect_now-single s built h = elim (Bool-cases (s.closed || is_live s.ready)) [
  | inl e ↦ ground arith
  | inr e ↦ e
]

-- An event builds a socket only if the handle is not closed and its current socket is neither open
-- nor connecting.
pub builds-single :
    (s : Signaling) (e : Event) → builds (handle s e).1 ≡ true → s.closed || is_live s.ready ≡ false
unfolding handle schedule_reconnect builds
builds-single s opens h = ground arith
builds-single s begins_closing h = ground arith
builds-single s closes h = elim (Bool-cases s.closed) [
  | inl e ↦ ground arith
  | inr e ↦ ground arith
]
builds-single s (fires built) h = reconnect_now-single (record s { timers = s.timers - 1 }) built h
builds-single s (online built) h = elim (Bool-cases (s.closed || is_live s.ready)) [
  | inl e ↦ ground arith
  | inr e ↦ e
]
