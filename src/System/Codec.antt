-- ===== src/System/Codec.antt =====
-- A concrete format of the signaling messages, for the runs of the examples: a tag and the texts,
-- the first with its length.
use file_send.Prelude.{
  length, take, drop, take-append, drop-append, Text, nat_key, text_key, ℕ, zero, suc, ◌≡◌, refl,
  Option, none, some, [], ◌∷◌, ◌++◌,
}
use file_send.Wire.{SignalMsg, Json}

unfoldable pub print : SignalMsg → Text
print SignalMsg.create = 0 ∷ []
print (SignalMsg.reclaim room) = 1 ∷ room
print (SignalMsg.created room) = 2 ∷ room
print (SignalMsg.join room) = 3 ∷ room
print SignalMsg.peer_joined = 4 ∷ []
print SignalMsg.peer_left = 5 ∷ []
print SignalMsg.room_full = 6 ∷ []
print SignalMsg.room_not_found = 7 ∷ []
print (SignalMsg.sdp description kind) = 8 ∷ length description ∷ (description ++ kind)
print (SignalMsg.ice candidate) = 9 ∷ candidate

parse_tag : ℕ → Text → Option SignalMsg
parse_tag zero rest = some SignalMsg.create
parse_tag (suc zero) rest = some (SignalMsg.reclaim rest)
parse_tag (suc (suc zero)) rest = some (SignalMsg.created rest)
parse_tag (suc (suc (suc zero))) rest = some (SignalMsg.join rest)
parse_tag (suc (suc (suc (suc zero)))) rest = some SignalMsg.peer_joined
parse_tag (suc (suc (suc (suc (suc zero))))) rest = some SignalMsg.peer_left
parse_tag (suc (suc (suc (suc (suc (suc zero)))))) rest = some SignalMsg.room_full
parse_tag (suc (suc (suc (suc (suc (suc (suc zero))))))) rest = some SignalMsg.room_not_found
parse_tag (suc (suc (suc (suc (suc (suc (suc (suc zero)))))))) (n ∷ rest) =
    some (SignalMsg.sdp (take n rest) (drop n rest))
parse_tag (suc (suc (suc (suc (suc (suc (suc (suc (suc zero))))))))) rest =
    some (SignalMsg.ice rest)
parse_tag _ _ = none

unfoldable pub parse : Text → Option SignalMsg
unfolding parse_tag
parse [] = none
parse (tag ∷ rest) = parse_tag tag rest

pub reads : (msg : SignalMsg) → parse (print msg) ≡ some msg
unfolding parse print
reads SignalMsg.create = refl
reads (SignalMsg.reclaim room) = refl
reads (SignalMsg.created room) = refl
reads (SignalMsg.join room) = refl
reads SignalMsg.peer_joined = refl
reads SignalMsg.peer_left = refl
reads SignalMsg.room_full = refl
reads SignalMsg.room_not_found = refl
reads (SignalMsg.sdp description kind) =
    λ i. some (SignalMsg.sdp (take-append description kind i) (drop-append description kind i))
reads (SignalMsg.ice candidate) = refl

abbrev pub wire : Json SignalMsg
wire = record { to_string = print; from_str = parse; reads_back = reads }
