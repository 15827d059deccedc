-- ===== src/Signaling.antt =====
-- crates/client/src/signaling.rs: the reconnecting WebSocket, without the browser's objects.
pub mod Backoff
pub mod Alive
mod Examples
use file_send.Prelude.{
  ltb, if◌then◌else◌, nat_key, text_key, ℕ, ◌+◌, ◌-◌, ◌*◌, ◌%◌, ◌^◌, min, Bool, true, false, ◌||◌,
  Option, none, some, List, [], ◌∷◌,
}

abbrev pub backoff_base_ms : ℕ
backoff_base_ms = 500

abbrev pub backoff_cap_ms : ℕ
backoff_cap_ms = 15_000

-- `u64::checked_shl`: it refuses a shift by 64 or more, and drops the bits that leave the word.
unfoldable pub checked_shl : ℕ → ℕ → Option ℕ
checked_shl x n = if ltb n 64 then some (x * 2 ^ n % 2 ^ 64) else none

-- `unwrap_or`.
abbrev pub get_or : Option ℕ → ℕ → ℕ
get_or none d = d
get_or (some a) d = a

unfoldable pub next_backoff : ℕ → ℕ
unfolding checked_shl
next_backoff attempt =
    min (get_or (checked_shl backoff_base_ms attempt) (2 ^ 64 - 1)) backoff_cap_ms % 2 ^ 32

-- WebSocket.readyState.
pub data ReadyState : Type 0 where
  connecting : ReadyState
  open_state : ReadyState
  closing : ReadyState
  closed_state : ReadyState

-- What the handlers do to the world.
pub data Effect : Type 0 where
  on_open : Effect
  on_disconnect : Effect
  set_timeout : ℕ → Effect
  new_socket : Effect

-- The fields of `SignalingInner` that change: the state of the current socket, the counter and the
-- flag. `timers` counts the reconnects that `set_timeout` will still run.
pub record Signaling : Type 0 where
  pub ready : ReadyState
  pub attempt : ℕ
  pub closed : Bool
  pub timers : ℕ

unfoldable pub connect : Signaling
connect = record { ready = connecting; attempt = 0; closed = false; timers = 0 }

unfoldable pub schedule_reconnect : Signaling → Signaling × List Effect
schedule_reconnect s = (
  record s { attempt = (s.attempt + 1) % 2 ^ 32; timers = s.timers + 1 },
  set_timeout (next_backoff s.attempt) ∷ [],
)

-- `state == WebSocket::OPEN || state == WebSocket::CONNECTING`.
abbrev pub is_live : ReadyState → Bool
is_live connecting = true
is_live open_state = true
is_live closing = false
is_live closed_state = false

-- `built` is whether `WebSocket::new` succeeds.
unfoldable pub reconnect_now : Signaling → Bool → Signaling × List Effect
unfolding schedule_reconnect
reconnect_now s built =
    if s.closed || is_live s.ready
    then (s, [])
    else (if built
        then (record s { ready = connecting }, new_socket ∷ [])
        else schedule_reconnect s)

-- The handlers of `wire_socket` and of `register_online`, and the timer's callback.
pub data Event : Type 0 where
  opens : Event
  begins_closing : Event
  closes : Event
  fires : Bool → Event
  online : Bool → Event

unfoldable pub handle : Signaling → Event → Signaling × List Effect
unfolding schedule_reconnect reconnect_now
handle s opens = (record s { ready = open_state; attempt = 0 }, on_open ∷ [])
handle s begins_closing = (record s { ready = closing }, [])
handle s closes =
    let gone = record s { ready = closed_state } in
    if s.closed
    then (gone, [])
    else (let (t, effects) = schedule_reconnect gone in (t, on_disconnect ∷ effects))
handle s (fires built) = reconnect_now (record s { timers = s.timers - 1 }) built
handle s (online built) =
    if s.closed || is_live s.ready then (s, []) else reconnect_now (record s { attempt = 0 }) built
