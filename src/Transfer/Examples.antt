-- ===== src/Transfer/Examples.antt =====
-- Transfers of transfer.rs, over natural numbers in place of floats.
use file_send.Transfer.Codec.{whole, codec}
use file_send.HashMap.{get}
use file_send.Streams.Schedule.{ids_of}
use file_send.Streams.Places.{count, places}
use file_send.Transfer.Delivery.{Arrival, message, dropped, messages, saved, AtMost, deliver}
use file_send.Transfer.Complete.{arrivals, sent_of, transfer_integrity, transfer_completes}
use file_send.Transfer.Slots.{offers, IsTidy, sender_step, IsNew, sender_step-IsTidy}
use file_send.Transfer.Channel.{send_file_on_channel}
use file_send.Transfer.Limit.{KeepsTo, send_file_on_channel-KeepsTo}
use file_send.Prelude.{
  leb→le, min, text, nat_key, text_key, ℕ, ◌≡◌, refl, true, false, none, some, List, [], ◌∷◌, ◌++◌,
  map, arith,
}
use file_send.Protocol.{chunk_size, range_loop, split_ranges}
use file_send.Protocol.Ranges.{slice}
use file_send.Transfer.{File, Shared, MessageData, Effect, binary, new, stream_ended}
use file_send.Transfer.Send.{
  World, complete, Sent, and_then, send_frame, paced, chunk_loop, slab_loop, send_bytes, send_file,
}
use file_send.Transfer.Frames.{start_frame, final_frame}

-- A file of ten bytes, sent in views of four.
abbrev pub ten : File ℕ
ten = record {
  name = text "a.bin";
  size = 10;
  mime = [];
  bytes = 0 ∷ 1 ∷ 2 ∷ 3 ∷ 4 ∷ 5 ∷ 6 ∷ 7 ∷ 8 ∷ 9 ∷ [];
}

-- A browser that never fails and a peer that does not cancel.
abbrev pub calm : World
calm = record {
  is_cancelled = λ t. false;
  slice_ok = λ t. true;
  read_ok = λ t. true;
  send_ok = λ t. true;
  is_full = λ t. false;
}

abbrev ten_frames : List MessageData
ten_frames =
    start_frame codec 7 ten
    ∷ binary (0 ∷ 1 ∷ 2 ∷ 3 ∷ [])
    ∷ binary (4 ∷ 5 ∷ 6 ∷ 7 ∷ [])
    ∷ binary (8 ∷ 9 ∷ [])
    ∷ final_frame codec 7
    ∷ []

abbrev pub ten_sent : Sent ℕ
ten_sent = record {
  ending = complete;
  frames = ten_frames;
  reports = 4 ∷ 8 ∷ 10 ∷ [];
  time = 15;
  total = 10;
}

pub ten_runs : send_file codec calm 7 ten 4 ≡ some ten_sent
unfolding send_file send_bytes slab_loop chunk_loop and_then send_frame paced split_ranges
    range_loop slice
ten_runs = refl

-- They arrive one by one, a moment apart, and a second time with a cancel before the last bytes.
abbrev pub timed : List (MessageData × ℕ)
timed = map (λ m. (m, 5)) ten_frames

abbrev no_entry : Shared ℕ
no_entry = new

nothing_in : get no_entry.incoming 7 ≡ none
unfolding get
nothing_in = refl

pub timed_sent : sent_of timed ≡ ten_sent.frames
unfolding sent_of
timed_sent = refl

transfer_completes_example :
    saved (deliver codec 7 ten no_entry none (arrivals timed))
    ≡ (ten.bytes, ten.mime, ten.name) ∷ []
transfer_completes_example =
    transfer_completes codec 7 ten calm 4 ten_sent timed no_entry (omega arith) (omega arith) refl
      (omega arith) ten_runs refl timed_sent nothing_in

abbrev cut_off : List (Arrival ℕ)
cut_off =
    message (start_frame codec 7 ten) 5 true true
    ∷ message (binary (0 ∷ 1 ∷ 2 ∷ 3 ∷ [])) 6 true true
    ∷ dropped
    ∷ message (binary (4 ∷ 5 ∷ 6 ∷ 7 ∷ [])) 7 true true
    ∷ []

cut_off_sent : messages cut_off ++ binary (8 ∷ 9 ∷ []) ∷ final_frame codec 7 ∷ [] ≡ ten_sent.frames
unfolding messages
cut_off_sent = refl

transfer_integrity_example :
    AtMost (ten.bytes, ten.mime, ten.name) (saved (deliver codec 7 ten no_entry none cut_off))
transfer_integrity_example =
    transfer_integrity codec 7 ten calm 4 ten_sent cut_off
      (binary (8 ∷ 9 ∷ []) ∷ final_frame codec 7 ∷ []) no_entry (omega arith) (omega arith) refl
      (omega arith) ten_runs cut_off_sent nothing_in

no_entry-IsTidy : IsTidy no_entry
unfolding IsTidy places ids_of count get
no_entry-IsTidy = ((λ j. omega arith), omega arith)

seven-IsNew : IsNew codec no_entry (offers 7 ten)
unfolding IsNew places ids_of count get
seven-IsNew = refl

sender_step-IsTidy_example : IsTidy (sender_step codec no_entry (offers 7 ten)).0
sender_step-IsTidy_example =
    sender_step-IsTidy codec no_entry (offers 7 ten) seven-IsNew no_entry-IsTidy

-- A connection that takes messages of three bytes.
send_file_on_channel-KeepsTo_example :
    (frames : List MessageData) × (effects : List (Effect ℕ)) × (send_file_on_channel
        (λ m. true)
        codec
        calm
        7
        ten
        (some 3)
        true
        no_entry
      ≡ some ((stream_ended no_entry 7 ten).0, frames, effects))
    × KeepsTo codec 7 ten frames (min 3 chunk_size)
send_file_on_channel-KeepsTo_example =
    send_file_on_channel-KeepsTo (λ m. true) (leb→le 1) codec calm 7 ten 3 no_entry refl refl refl
      (omega arith)
