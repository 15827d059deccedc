-- ===== src/Transfer/Slots.antt =====
-- The sender's slots in transfer.rs: each offered file is streamed once, four at a time.
use file_send.Prelude.{
  Bool-cases, Option-cases, length, length-retain-le, contains, others, nat_key, text_key, ℕ, ◌≤◌,
  ◌≡◌, refl, sym, subst, inl, inr, Option, none, some, List, [], ◌∷◌, arith, ℕ_discrete,
}
use file_send.HashMap.{get, insert, remove}
use file_send.Wire.{Json}
use file_send.Protocol.{Control}
use file_send.Streams.{set_remove, Outgoing, enqueue_accepted, schedule, cancel_outgoing}
use file_send.Streams.Schedule.{schedule_fills}
use file_send.Streams.Places.{
  count, count-others, places, one_if-remove, one_if-insert, enqueue_accepted-places,
  schedule-places, cancel_outgoing-places,
}
use file_send.Transfer.{
  max_concurrent, File, Shared, Effect, new, offer_files, abort, on_control, stream_ended,
}

-- What happens to the sender: a file is offered, a control frame comes, the user aborts a file, or
-- the stream of a file ends.
pub data SenderEvent (F : Type 0) : Type 0 where
  offers : ℕ → File F → SenderEvent F
  controlled : Option (Control F) → SenderEvent F
  aborts : ℕ → SenderEvent F
  ends : ℕ → File F → SenderEvent F

-- Every file is in one place at most, and at most four are streaming.
unfoldable pub IsTidy : {F : Type 0} → Shared F → Type 0
IsTidy s = ((j : ℕ) → places s.outgoing j ≤ 1) × (length s.outgoing.active ≤ max_concurrent)

module _ {F : Type 0} (json : Json (Control F)) where
  unfoldable pub sender_step : Shared F → SenderEvent F → Shared F × List (Effect F)
  sender_step s (offers id file) = offer_files json s ((id, file) ∷ [])
  sender_step s (controlled c) = on_control json s c
  sender_step s (aborts id) = abort json s id
  sender_step s (ends id file) = stream_ended s id file

  -- A file is offered under an id that no file has.
  unfoldable pub IsNew : Shared F → SenderEvent F → Type 0
  IsNew s (offers id file) = places s.outgoing id ≡ 0
  IsNew s _ = Unit

  schedule-IsTidy :
      (out : Outgoing (File F))
      → ((j : ℕ) → places out j ≤ 1)
      → length out.active ≤ max_concurrent
      → ((j : ℕ) → places (schedule out max_concurrent).0 j ≤ 1)
        × (length (schedule out max_concurrent).0.active ≤ max_concurrent)
  schedule-IsTidy out once few = (
    (λ j. subst (λ n. n ≤ 1) (sym (schedule-places out max_concurrent once j)) (once j)),
    (schedule_fills out max_concurrent 0 few).1,
  )

  offer_places :
      (out : Outgoing (File F)) (id : ℕ) (file : File F) (j : ℕ)
      → places out id ≡ 0
      → places out j ≤ 1
      → places (record out { offered = insert out.offered id file }) j ≤ 1
  unfolding places
  offer_places out id file j new once = elim (ℕ_discrete id j) [
    | yes e ↦
        subst (λ k. places (record out { offered = insert out.offered id file }) k ≤ 1) e
          (ground (arith, new, one_if-insert out.offered id id file))
    | no n ↦ ground (arith, n, once, one_if-insert out.offered id j file)
  ]

  active_first : (out : Outgoing (File F)) (j : ℕ) → count out.active j ≤ places out j
  unfolding places
  active_first out j = omega arith

  cancel_places :
      (out : Outgoing (File F)) (id j : ℕ)
      → places out j ≤ 1
      → places (cancel_outgoing out id) j ≤ 1
  cancel_places out id j once =
      ground (arith, once, cancel_outgoing-places out id j, active_first out j)

  reject_places :
      (out : Outgoing (File F)) (id j : ℕ)
      → places out j ≤ 1
      → places (record out { offered = remove out.offered id }) j ≤ 1
  unfolding places
  reject_places out id j once = ground (arith, once, one_if-remove out.offered id j)

  freed_places :
      (out : Outgoing (File F)) (id j : ℕ)
      → places out j ≤ 1
      → places (record out { active = set_remove out.active id }) j ≤ 1
  unfolding places set_remove
  freed_places out id j once = ground (arith, once, count-others out.active id j)

  freed_few :
      (out : Outgoing (File F)) (id : ℕ)
      → length out.active ≤ max_concurrent
      → length (set_remove out.active id) ≤ max_concurrent
  unfolding set_remove
  freed_few out id few = omega (arith, few, length-retain-le (others id) out.active)

  enqueue-active :
      (out : Outgoing (File F)) (id : ℕ) → (enqueue_accepted out id).active ≡ out.active
  unfolding enqueue_accepted
  enqueue-active out id = elim (Option-cases (get out.offered id)) [
    | inl e ↦ rw (e, enqueue_accepted) refl
    | inr (file, e) ↦ rw (e, enqueue_accepted) refl
  ]

  -- Whatever is offered under new ids, whatever the peer answers, and whenever files are aborted or
  -- their streams end: if no file was in two of offered, waiting and streaming, and at most four
  -- were streaming, then so it is after it.
  pub sender_step-IsTidy :
      (s : Shared F) (e : SenderEvent F) → IsNew s e → IsTidy s → IsTidy (sender_step s e).0
  unfolding IsTidy IsNew sender_step offer_files on_control abort stream_ended cancel_outgoing
      places
  sender_step-IsTidy s (offers id file) new (once, few) =
      ((λ j. offer_places s.outgoing id file j new (once j)), few)
  sender_step-IsTidy s (controlled none) new tidy = tidy
  sender_step-IsTidy s (controlled (some (Control.offer meta))) new tidy = tidy
  sender_step-IsTidy s (controlled (some (Control.accept id))) new (once, few) =
      schedule-IsTidy (enqueue_accepted s.outgoing id)
        (λ j. subst (λ n. n ≤ 1) (sym (enqueue_accepted-places s.outgoing id j)) (once j))
        (subst (λ q. length q ≤ max_concurrent) (sym (enqueue-active s.outgoing id)) few)
  sender_step-IsTidy s (controlled (some (Control.reject id))) new (once, few) =
      ((λ j. reject_places s.outgoing id j (once j)), few)
  sender_step-IsTidy s (controlled (some (Control.start meta))) new tidy = tidy
  sender_step-IsTidy s (controlled (some (Control.end_frame e))) new tidy = tidy
  sender_step-IsTidy s (controlled (some (Control.cancel id))) new (once, few) =
      ((λ j. cancel_places s.outgoing id j (once j)), few)
  sender_step-IsTidy s (controlled (some (Control.abort id))) new tidy = tidy
  sender_step-IsTidy s (aborts id) new (once, few) =
      ((λ j. cancel_places s.outgoing id j (once j)), few)
  sender_step-IsTidy s (ends id file) new (once, few) =
      elim (Bool-cases (contains s.outgoing.cancelled id)) [
        | inl e ↦ rw (e) (
            schedule-IsTidy
              (record s.outgoing {
                cancelled = set_remove s.outgoing.cancelled id;
                active = set_remove s.outgoing.active id;
              })
              (λ j. freed_places s.outgoing id j (once j)) (freed_few s.outgoing id few))
        | inr e ↦ rw (e) (
            schedule-IsTidy (record s.outgoing { active = set_remove s.outgoing.active id })
              (λ j. freed_places s.outgoing id j (once j)) (freed_few s.outgoing id few))
      ]
