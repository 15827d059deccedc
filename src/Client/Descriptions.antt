-- ===== src/Client/Descriptions.antt =====
-- What the futures of app.rs send: a description of their own connection, or nothing.
use file_send.Prelude.{
  Text, text, nat_key, text_key, ◌≡◌, refl, ◌⊎◌, inl, inr, true, some, Bool-cases, [], ◌∷◌, arith,
}
use file_send.Float.{F64}
use file_send.Wire.{SignalMsg}
use file_send.Webrtc.{Browser, ok, Result-cases, SdpType, create_offer, create_answer, set_remote}
use file_send.Webrtc.Local.{IsOwn, create_offer-ok, create_answer-ok}
use file_send.Client.{
  Host, Client, Task, offering, answering, applying_answer, adding_candidate, send, send_signal,
  run_task,
}

module _ {J : Type 0} (b : Browser J) where
  -- What must have gone well before a future sends a description with a kind.
  abbrev pub HasDescribed : Task → Text → Text → Type 0
  HasDescribed (offering pc) sdp kind =
      (kind ≡ text "offer")
      × ((made : J) × (b.create_offer pc ≡ ok made) × IsOwn b pc SdpType.offer made sdp)
  HasDescribed (answering pc remote) sdp kind =
      (kind ≡ text "answer")
      × (set_remote b pc SdpType.offer remote ≡ ok tt)
      × ((made : J) × (b.create_answer pc (some remote) ≡ ok made)
          × IsOwn b pc SdpType.answer made sdp)
  HasDescribed _ sdp kind = ⊥

module _ {F J : Type 0} ⦃f64 : F64 F⦄ (host : Host J) (c : Client F) where
  -- A future of the handshake sends nothing, or exactly one description: then the page has its
  -- signaling, every call of the browser before it has gone well; an answer was made by a
  -- connection that already held the peer's offer as its remote description; and what is sent is the text that the connection has taken as its
  -- local description. So a promise that is rejected, at any place, or a description without a
  -- text, leaves the peer without a message.
  pub run_task_describes :
      (task : Task)
      → (run_task host c task ≡ [])
        ⊎ ((sdp : Text) × (kind : Text) × (run_task host c task
              ≡ send (SignalMsg.sdp sdp kind) ∷ [])
            × (c.signaling ≡ true)
            × HasDescribed host.browser task sdp kind)
  unfolding run_task send_signal
  run_task_describes (offering pc) = elim (Result-cases (create_offer host.browser pc)) [
    | inr (why, bad) ↦ inl (rw (bad, run_task) refl)
    | inl (sdp, good) ↦ elim (Bool-cases c.signaling) [
      | inr off ↦ inl (rw (good, run_task) (rw off refl))
      | inl online ↦ inr (
        sdp,
        text "offer",
        rw (good, run_task) (rw online refl),
        online,
        (refl, create_offer-ok host.browser pc sdp good),
      )
    ]
  ]
  run_task_describes (answering pc remote) =
      elim (Result-cases (set_remote host.browser pc SdpType.offer remote)) [
        | inr (why, bad) ↦ inl (rw (bad, run_task) refl)
        | inl (done, taken) ↦ elim (Result-cases (create_answer host.browser pc (some remote))) [
          | inr (why, bad) ↦ inl (rw (taken, run_task) (rw taken (rw bad refl)))
          | inl (sdp, good) ↦ elim (Bool-cases c.signaling) [
            | inr off ↦ inl (rw (taken, run_task) (rw taken (rw good (rw off refl))))
            | inl online ↦ inr (
              sdp,
              text "answer",
              rw (taken, run_task) (rw taken (rw good (rw online refl))),
              online,
              (refl, taken, create_answer-ok host.browser pc (some remote) sdp good),
            )
          ]
        ]
      ]
  run_task_describes (applying_answer pc remote) = inl (ground arith)
  run_task_describes (adding_candidate pc candidate) = inl (ground arith)
