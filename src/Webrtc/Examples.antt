-- ===== src/Webrtc/Examples.antt =====
-- A browser that answers every call, and one call of it.
use file_send.Prelude.{Text, text, nat_key, text_key, ◌≡◌, refl, none, some}
use file_send.Webrtc.{Browser, ok, err, create_offer, set_local}

-- Its JavaScript values are texts.
abbrev pub willing : Browser Text
willing = record {
  stun_env = none;
  new_with_configuration = λ url n. ok n;
  create_offer = λ pc. ok (text "O");
  create_answer = λ pc remote. ok (text "A");
  get_sdp = λ made. ok (some made);
  set_local_description = λ pc kind sdp. ok tt;
  set_remote_description = λ pc kind sdp. ok tt;
  parse = λ json. ok json;
  stringify = λ value. ok (some value);
  new_candidate = λ value. ok value;
  add_candidate = λ pc value. ok tt;
}

an_offer_without_sdp_fails :
    create_offer (record willing { get_sdp = λ made. ok none }) 0 ≡ err (text "offer missing sdp")
unfolding create_offer set_local
an_offer_without_sdp_fails = refl
