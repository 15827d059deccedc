-- ===== src/Reconnect/Guard.antt =====
-- Whose room the reducer of reconnect.rs reclaims, and when it takes an answer or a candidate.
use file_send.Reconnect.Reclaims.{run-split}
use file_send.Prelude.{
  if◌then◌else◌, Bool-cases, Option-cases, All, All-append, Text, nat_key, text_key, ◌≡◌, refl, sym,
  ap, ◌∙◌, subst, ◌⊎◌, inl, inr, Bool, true, false, not, ◌&&◌, Option, none, some, List, [], ◌∷◌,
  arith,
}
use file_send.Reconnect.{
  Status, Event, opened, offer, answer, Session, Action, send_reclaim, set_remote_answer, add_ice,
  set_status, is_owner, room_lost, step, dropped_session, Input, event, socket_drop, feed, run,
}

is_owner-room :
    (h o : Option Text) → is_owner h o ≡ true → (room : Text) × (h ≡ some room) × (o ≡ some room)
unfolding is_owner
is_owner-room none o e = absurd (ground arith)
is_owner-room (some a) none e = absurd (ground arith)
is_owner-room (some a) (some b) e = (a, refl, ground arith)

All-if :
    (P : Action → Type 0) (b : Bool) (xs ys : List Action)
    → All P xs
    → All P ys
    → All P (if b then xs else ys)
All-if P true xs ys hx hy = hx
All-if P false xs ys hx hy = hy

-- A lost room is reclaimed only by the session that owns the very room of its address bar.
room_lost-cases :
    (s t : Session) (acts : List Action)
    → room_lost s ≡ some (t, acts)
    → (t.owns ≡ s.owns)
      × ((acts ≡ set_status Status.room_not_found ∷ [])
          ⊎ ((room : Text) × (s.owns ≡ some room)
              × (s.room_in_hash ≡ some room)
              × (acts ≡ send_reclaim room ∷ [])))
unfolding room_lost
room_lost-cases s t acts e =
    elim (Bool-cases (is_owner s.room_in_hash s.owns && not s.reclaim_tried)) [
      | inl mine ↦
          let (room, at, own) = is_owner-room s.room_in_hash s.owns (ground (arith, mine)) in
          (ground (arith, mine, at, e), inr (room, own, at, ground (arith, mine, at, e)))
      | inr lost ↦ (ground (arith, lost, e), inl (ground (arith, lost, e)))
    ]

module _ (P : Text → Type 0) where
  -- The room of a `Created`, the room of a reclaim, the room that a session owns.
  abbrev pub Names : Input → Type 0
  Names (event (Event.created room)) = P room
  Names _ = Unit

  abbrev pub Reclaims : Action → Type 0
  Reclaims (send_reclaim room) = P room
  Reclaims _ = Unit

  abbrev pub Owns : Session → Type 0
  Owns s = (room : Text) → s.owns ≡ some room → P room

  -- What is to hold of the answer to an input.
  abbrev Fits : Option (Session × List Action) → Type 0
  Fits none = Unit
  Fits (some (t, acts)) = Owns t × All Reclaims acts

  room_lost-Fits : (s : Session) → Owns s → Fits (room_lost s)
  room_lost-Fits s h = elim (Option-cases (room_lost s)) [
    | inl e ↦ rw e tt
    | inr ((t, acts), e) ↦ rw e (elim (room_lost-cases s t acts e).1 [
      | inl plain ↦
          (λ room own. h room (sym (room_lost-cases s t acts e).0 ∙ own), rw plain (tt, tt))
      | inr (room, own, at, sent) ↦ (
        λ other owned. h other (sym (room_lost-cases s t acts e).0 ∙ owned),
        rw sent (h room own, tt),
      )
    ])
  ]

  feed-Fits : (s : Session) (i : Input) → Owns s → Names i → Fits (feed s i)
  unfolding feed step dropped_session
  feed-Fits s (event Event.room_not_found) h n = room_lost-Fits s h
  feed-Fits s (event opened) h n = elim (Option-cases s.room_in_hash) [
    | inl e ↦ rw (e, step) (h, (tt, tt))
    | inr (room, e) ↦ rw (e, step) (h, (tt, tt))
  ]
  feed-Fits s (event (Event.created room)) h n =
      (λ other own. let same : room ≡ other = ground arith in subst P same n, (tt, (tt, tt)))
  feed-Fits s (event (answer d)) h n = (h, All-if Reclaims s.has_pc _ [] (tt, tt) tt)
  feed-Fits s (event Event.ice) h n = (h, All-if Reclaims s.has_pc _ [] (tt, tt) tt)
  feed-Fits s (event Event.peer_left) h n = (h, (tt, (tt, tt)))
  feed-Fits s socket_drop h n = (h, tt)
  feed-Fits s i h n = (h, (tt, tt))

  -- Over any inputs, a room that is reclaimed is one that the session owned at the start or that
  -- the server told it was created: whatever holds of these rooms holds of every reclaimed room.
  pub run-Reclaims :
      (s t : Session) (is : List Input) (acts : List Action)
      → Owns s
      → All Names is
      → run s is ≡ some (t, acts)
      → All Reclaims acts
  unfolding run
  run-Reclaims s t [] acts h n e = let bare : acts ≡ [] = ground arith in rw bare tt
  run-Reclaims s t (i ∷ is) acts h n e =
      let (m, now, later, ok, ok', join) = run-split s t i is acts e in
      let fits : Owns m × All Reclaims now = subst Fits ok (feed-Fits s i h n.0) in
      rw join (All-append Reclaims now later fits.1 (run-Reclaims m t is later fits.0 n.1 ok'))

-- Whether a handshake is under way after some inputs: the last of them that starts or ends one
-- starts one.
abbrev pub in_handshake : Bool → List Input → Bool
in_handshake b [] = b
in_handshake b (event Event.peer_joined ∷ is) = in_handshake true is
in_handshake b (event (offer d) ∷ is) = in_handshake true is
in_handshake b (event Event.peer_left ∷ is) = in_handshake false is
in_handshake b (socket_drop ∷ is) = in_handshake false is
in_handshake b (_ ∷ is) = in_handshake b is

in_handshake-cons :
    (b : Bool) (i : Input) (is : List Input)
    → in_handshake b (i ∷ is) ≡ in_handshake (in_handshake b (i ∷ [])) is
in_handshake-cons b socket_drop is = refl
in_handshake-cons b (event opened) is = refl
in_handshake-cons b (event _) is = refl

room_lost-has_pc :
    (s t : Session) (acts : List Action) → room_lost s ≡ some (t, acts) → t.has_pc ≡ s.has_pc
unfolding room_lost
room_lost-has_pc s t acts e = ground arith

feed-has_pc :
    (s t : Session) (i : Input) (acts : List Action)
    → feed s i ≡ some (t, acts)
    → t.has_pc ≡ in_handshake s.has_pc (i ∷ [])
unfolding feed step dropped_session
feed-has_pc s t (event Event.room_not_found) acts e = room_lost-has_pc s t acts e
feed-has_pc s t (event _) acts e = ground arith
feed-has_pc s t socket_drop acts e = ground arith

run-has_pc :
    (s t : Session) (is : List Input) (acts : List Action)
    → run s is ≡ some (t, acts)
    → t.has_pc ≡ in_handshake s.has_pc is
unfolding run
run-has_pc s t [] acts e = ground arith
run-has_pc s t (i ∷ is) acts e =
    let (m, now, later, ok, ok', join) = run-split s t i is acts e in
    run-has_pc m t is later ok'
    ∙ ap (λ (b : Bool). in_handshake b is) (feed-has_pc s m i now ok)
    ∙ sym (in_handshake-cons s.has_pc i is)

-- After any inputs an answer or a candidate leads to an action exactly when a handshake is under
-- way, that is, when the last `PeerJoined`, offer, `PeerLeft` or drop of the socket among them is
-- one of the first two; a stray one is ignored. Neither changes the session.
pub negotiation_guarded :
    (s t : Session) (is : List Input) (acts : List Action) (sdp : Text)
    → run s is ≡ some (t, acts)
    → (step t (answer sdp)
        ≡ some (t, if in_handshake s.has_pc is then set_remote_answer sdp ∷ [] else []))
      × (step t Event.ice ≡ some (t, if in_handshake s.has_pc is then add_ice ∷ [] else []))
unfolding step
negotiation_guarded s t is acts sdp e = rw (← run-has_pc s t is acts e) (refl, refl)
