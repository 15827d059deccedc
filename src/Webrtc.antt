-- ===== src/Webrtc.antt =====
-- crates/client/src/webrtc.rs: what it asks of the browser's peer connections. The browser is a
-- parameter: `J` is its JavaScript values, and a peer connection is the number of its construction.
pub mod Local
pub mod Examples
use file_send.Prelude.{
  Text, text, nat_key, text_key, ℕ, ◌≡◌, refl, ◌⊎◌, inl, inr, Option, none, some,
}

-- `Result<A, JsValue>`, with the value that was thrown as `{:?}` prints it.
pub data Result {ℓ} (A : Type ℓ) : Type ℓ where
  err : Text → Result A
  ok : A → Result A

-- `?` on a result.
infixl 5 ◌>>=◌ ◌>>◌
abbrev pub ◌>>=◌ {ℓ κ} : {A : Type ℓ} {B : Type κ} → Result A → (A → Result B) → Result B
err thrown >>= next = err thrown
ok value >>= next = next value

abbrev pub ◌>>◌ {ℓ} : {A : Type ℓ} → Result (Unit {0}) → Result A → Result A
err thrown >> next = err thrown
ok _ >> next = next

-- `Option::ok_or_else`.
abbrev pub ok_or {ℓ} : {A : Type ℓ} → Option A → Text → Result A
ok_or none e = err e
ok_or (some a) e = ok a

pub data SdpType : Type 0 where
  offer answer : SdpType

-- `option_env!("STUN_URL")`, and the browser's calls: each promise by what it resolves to. An answer
-- depends on the remote description that the connection holds when it is asked for.
pub record Browser (J : Type 0) : Type 0 where
  pub stun_env : Option Text
  pub new_with_configuration : Text → ℕ → Result ℕ
  pub create_offer : ℕ → Result J
  pub create_answer : ℕ → Option Text → Result J
  pub get_sdp : J → Result (Option Text)
  pub set_local_description : ℕ → SdpType → Text → Result (Unit {0})
  pub set_remote_description : ℕ → SdpType → Text → Result (Unit {0})
  pub parse : Text → Result J
  pub stringify : J → Result (Option Text)
  pub new_candidate : J → Result J
  pub add_candidate : ℕ → J → Result (Unit {0})

-- The remote description that a connection holds after a call that sets one: that of the call, if it
-- went well.
abbrev pub remote_after : Option Text → Text → Result (Unit {0}) → Option Text
remote_after before description (err thrown) = before
remote_after before description (ok _) = some description

module _ {J : Type 0} (b : Browser J) where
  unfoldable pub stun_url : Text
  stun_url = elim b.stun_env [ some url ↦ url | none ↦ text "stun:stun.l.google.com:19302" ]

  -- The `n`-th construction of the page.
  unfoldable pub new_peer_connection : ℕ → Result ℕ
  unfolding stun_url
  new_peer_connection n = b.new_with_configuration stun_url n

  unfoldable pub set_local : ℕ → SdpType → Text → Result (Unit {0})
  set_local pc kind description = do b.set_local_description pc kind description; ok tt

  unfoldable pub create_offer : ℕ → Result Text
  unfolding set_local
  create_offer pc = do
    made ← b.create_offer pc
    field ← b.get_sdp made
    sdp ← ok_or field (text "offer missing sdp")
    set_local pc SdpType.offer sdp
    ok sdp

  -- `remote` is the remote description that the connection holds.
  unfoldable pub create_answer : ℕ → Option Text → Result Text
  unfolding set_local
  create_answer pc remote = do
    made ← b.create_answer pc remote
    field ← b.get_sdp made
    sdp ← ok_or field (text "answer missing sdp")
    set_local pc SdpType.answer sdp
    ok sdp

  unfoldable pub set_remote : ℕ → SdpType → Text → Result (Unit {0})
  set_remote pc kind description = do b.set_remote_description pc kind description; ok tt

  unfoldable pub add_ice_candidate : ℕ → Text → Result (Unit {0})
  add_ice_candidate pc json = do
    obj ← b.parse json
    candidate ← b.new_candidate obj
    b.add_candidate pc candidate
    ok tt

  -- `onicecandidate`: what is passed to the sink, of the event's candidate.
  unfoldable pub on_ice_candidate : Option J → Option Text
  on_ice_candidate none = none
  on_ice_candidate (some candidate) = elim (b.stringify candidate) [ err e ↦ none | ok json ↦ json ]

pub Result-cases {ℓ} :
    {A : Type ℓ} (r : Result A) → ((a : A) × (r ≡ ok a)) ⊎ ((e : Text) × (r ≡ err e))
Result-cases (ok a) = inl (a, refl)
Result-cases (err e) = inr (e, refl)
