-- ===== src/Reconnect/Reclaims.antt =====
-- When the reducer of reconnect.rs reclaims a room.
use file_send.Prelude.{
  if◌then◌else◌, Option-cases, nat_key, text_key, ℕ, suc, ◌+◌, ◌≤◌, ◌≡◌, ◌≢◌, inl, inr, none, some,
  List, [], ◌∷◌, ◌++◌, arith,
}
use file_send.Reconnect.{
  Event, opened, Session, Action, send_reclaim, step, dropped_session, Input, event, socket_drop,
  feed, run,
}

step-ne-none : (s : Session) (ev : Event) → step s ev ≢ none
unfolding step
step-ne-none s opened = ground arith
step-ne-none s Event.room_not_found = ground arith
step-ne-none s _ = λ e. cc

feed-ne-none : (s : Session) (i : Input) → feed s i ≢ none
unfolding feed
feed-ne-none s (event ev) = step-ne-none s ev
feed-ne-none s socket_drop = λ e. cc

run-ne-none : (s : Session) (is : List Input) → run s is ≢ none
unfolding run
run-ne-none s [] = λ e. cc
run-ne-none s (i ∷ is) = λ e. elim (Option-cases (feed s i)) [
  | inl bad ↦ feed-ne-none s i bad
  | inr (r, ok) ↦ ground (arith, run-ne-none r.0 is, ok, e)
]

feed_total :
    (s : Session) (i : Input) → (t : Session) × (acts : List Action) × (feed s i ≡ some (t, acts))
feed_total s i = elim (Option-cases (feed s i)) [
  | inl bad ↦ absurd (feed-ne-none s i bad)
  | inr (r, ok) ↦ (r.0, r.1, ok)
]

-- The reducer never panics: every list of inputs, from every session, is answered.
pub run_total :
    (s : Session) (is : List Input)
    → (t : Session) × (acts : List Action) × (run s is ≡ some (t, acts))
run_total s is = elim (Option-cases (run s is)) [
  | inl bad ↦ absurd (run-ne-none s is bad)
  | inr (r, ok) ↦ (r.0, r.1, ok)
]

-- How many actions reclaim a room, and how many inputs are drops of the socket.
abbrev pub reclaims : List Action → ℕ
reclaims [] = 0
reclaims (send_reclaim room ∷ acts) = suc (reclaims acts)
reclaims (_ ∷ acts) = reclaims acts

abbrev pub drops : List Input → ℕ
drops [] = 0
drops (socket_drop ∷ is) = suc (drops is)
drops (event ev ∷ is) = drops is

reclaims-append : (xs ys : List Action) → reclaims (xs ++ ys) ≡ reclaims xs + reclaims ys
reclaims-append [] ys = omega arith
reclaims-append (send_reclaim room ∷ acts) ys = omega (arith, reclaims-append acts ys)
reclaims-append (_ ∷ acts) ys = reclaims-append acts ys

-- What is left of the one attempt.
abbrev pub attempts : Session → ℕ
attempts s = if s.reclaim_tried then 0 else 1

step-reclaims :
    (s t : Session) (ev : Event) (acts : List Action)
    → step s ev ≡ some (t, acts)
    → reclaims acts + attempts t ≤ attempts s
unfolding step
step-reclaims s t opened acts e = ground arith
step-reclaims s t _ acts e = ground arith

-- The parts of a run that succeeded.
pub run-split :
    (s u : Session) (i : Input) (is : List Input) (acts : List Action)
    → run s (i ∷ is) ≡ some (u, acts)
    → (t : Session) × (now : List Action) × (later : List Action) × (feed s i ≡ some (t, now))
      × (run t is ≡ some (u, later))
      × (acts ≡ now ++ later)
unfolding run
run-split s u i is acts e =
    let (t, now, ok) = feed_total s i in
    let (u', later, ok') = run_total t is in
    (t, now, later, ok, ground (arith, ok, ok', e), ground (arith, ok, ok', e))

feed-reclaims :
    (s t : Session) (i : Input) (acts : List Action)
    → feed s i ≡ some (t, acts)
    → reclaims acts + attempts t ≤ attempts s + drops (i ∷ [])
unfolding feed dropped_session
feed-reclaims s t (event ev) acts e = omega (arith, step-reclaims s t ev acts e)
feed-reclaims s t socket_drop acts e = ground arith

drops-cons : (i : Input) (is : List Input) → drops (i ∷ is) ≡ drops (i ∷ []) + drops is
drops-cons (event ev) is = omega arith
drops-cons socket_drop is = omega arith

-- A session reclaims at most once, and once more after each drop of its socket: over any inputs,
-- the reclaims are no more than the attempt that was left at the start and the drops. So a refused
-- reclaim, which comes back as another `RoomNotFound`, cannot loop.
pub run-reclaims-le :
    (s t : Session) (is : List Input) (acts : List Action)
    → run s is ≡ some (t, acts)
    → reclaims acts ≤ attempts s + drops is
unfolding run
run-reclaims-le s t [] acts e = ground arith
run-reclaims-le s t (i ∷ is) acts e =
    let (m, now, later, ok, ok', join) = run-split s t i is acts e in
    rw join (
      omega (
        arith,
        reclaims-append now later,
        feed-reclaims s m i now ok,
        run-reclaims-le m t is later ok',
        drops-cons i is,
      ))
