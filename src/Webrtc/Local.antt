-- ===== src/Webrtc/Local.antt =====
-- A description that webrtc.rs hands out is the one that the connection has taken as its own.
use file_send.Prelude.{Text, nat_key, text_key, ℕ, ◌≡◌, inl, inr, Option, some, arith}
use file_send.Webrtc.{Browser, ok, Result-cases, SdpType, set_local, create_offer, create_answer}

module _ {J : Type 0} (b : Browser J) (pc : ℕ) where
  -- `sdp` is the field of what the browser made, and it was set as the local description.
  pub record IsOwn (kind : SdpType) (made : J) (sdp : Text) : Type 0 where
    pub field : b.get_sdp made ≡ ok (some sdp)
    pub applied : b.set_local_description pc kind sdp ≡ ok tt

  pub create_offer-ok :
      (sdp : Text)
      → create_offer b pc ≡ ok sdp
      → (made : J) × (b.create_offer pc ≡ ok made) × IsOwn SdpType.offer made sdp
  unfolding create_offer set_local
  create_offer-ok sdp e = elim (Result-cases (b.create_offer pc)) [
    | inr (why, bad) ↦ absurd (ground (arith, bad, e))
    | inl (made, good) ↦ (made, good, ground (arith, good, e))
  ]

  pub create_answer-ok :
      (remote : Option Text) (sdp : Text)
      → create_answer b pc remote ≡ ok sdp
      → (made : J) × (b.create_answer pc remote ≡ ok made) × IsOwn SdpType.answer made sdp
  unfolding create_answer set_local
  create_answer-ok remote sdp e = elim (Result-cases (b.create_answer pc remote)) [
    | inr (why, bad) ↦ absurd (ground (arith, bad, e))
    | inl (made, good) ↦ (made, good, ground (arith, good, e))
  ]
