-- ===== src/Transfer/Limit.antt =====
-- crates/client/src/transfer.rs: the messages of a stream and the size that the channel negotiated.
use file_send.Prelude.{
  length, All, nat_key, text_key, ℕ, ◌+◌, ◌^◌, ◌≤◌, ◌<◌, min, ◌≡◌, refl, Bool, true, some, List, [],
  ◌∷◌, ◌++◌, map, arith,
}
use file_send.Float.{F64}
use file_send.Wire.{Json}
use file_send.Protocol.{Control, chunk_size, slab_size}
use file_send.Protocol.Ranges.{flatten}
use file_send.Transfer.{File, Shared, MessageData, Effect, on_send_progress, stream_ended}
use file_send.Transfer.Send.{World}
use file_send.Transfer.Channel.{max_message_size, chunk_for, send_file_on_channel}
use file_send.Transfer.Frames.{binary_len, whole_file, Begins, send_file-Begins}

-- What a stream has put on its channel: the beginning of `Start`, the bytes of the file in order,
-- `End`, in binary messages of at most `limit` bytes; the two control frames may be longer.
abbrev pub KeepsTo :
    {F : Type 0} ⦃f64 : F64 F⦄ → Json (Control F) → ℕ → File F → List MessageData → ℕ → Type 0
KeepsTo json id file frames limit =
    (views : List (List ℕ)) × (more : List MessageData) × (flatten views ≡ file.bytes)
    × (frames ++ more ≡ whole_file json id file views)
    × All (λ f. binary_len f ≤ limit) frames

All-le :
    (frames : List MessageData) (a b : ℕ)
    → a ≤ b
    → All (λ f. binary_len f ≤ a) frames
    → All (λ f. binary_len f ≤ b) frames
All-le [] a b le h = tt
All-le (f ∷ fs) a b le h = (omega (arith, h.0), All-le fs a b le h.1)

module _ {F : Type 0} ⦃f64 : F64 F⦄ (is_finite : F → Bool)
    (rounds_down : (m : F) → f64.le (f64.of_nat 1) m ≡ true → 1 ≤ f64.to_nat m) where
  -- The size that a connection reports is kept to where it is finite and at least 1.
  chunk_for-bounds :
      (m : F)
      → is_finite m ≡ true
      → f64.le (f64.of_nat 1) m ≡ true
      → let chunk = chunk_for is_finite (some m) in
        (0 < chunk) × (chunk ≤ chunk_size) × (chunk ≤ f64.to_nat m)
  unfolding max_message_size chunk_for
  chunk_for-bounds m finite one =
      rw (finite, one) (omega (arith, rounds_down m one), omega arith, omega arith)

  -- The connection reports a largest message size that is finite and at least 1, the file's channel
  -- opens, and the reads and the waits for the channel's buffer settle. Then the task of one file
  -- ends, whatever the browser answers to each, and its binary messages keep to that size and to
  -- `CHUNK_SIZE` (`Start` and `End` are strings, which no size limits). What is on the channel is
  -- the beginning of `Start`, the bytes of the file in order, `End`, and what remains of the shared
  -- state is that of a stream that has ended. The file's `size` is the number of its bytes and
  -- leaves room for a slab in a 64-bit word, and the cast of a float that is at least 1 is at least
  -- 1.
  pub send_file_on_channel-KeepsTo :
      (json : Json (Control F)) (w : World) (id : ℕ) (file : File F) (m : F) (later : Shared F)
      → is_finite m ≡ true
      → f64.le (f64.of_nat 1) m ≡ true
      → f64.to_nat file.size ≡ length file.bytes
      → length file.bytes + slab_size ≤ 2 ^ 64
      → (frames : List MessageData) × (effects : List (Effect F)) × (send_file_on_channel is_finite
            json w id file
            (some m)
            true
            later
          ≡ some ((stream_ended later id file).0, frames, effects))
        × KeepsTo json id file frames (min (f64.to_nat m) chunk_size)
  unfolding send_file_on_channel Begins
  send_file_on_channel-KeepsTo json w id file m later finite one sized word =
      let chunk = chunk_for is_finite (some m) in
      let (pos, le, most) = chunk_for-bounds m finite one in
      let (r, e, (views, more, cut, frames, full, small)) =
        send_file-Begins json w id file chunk pos le sized word in
      (
        r.frames,
        map (λ n. on_send_progress id file.name n file.size) r.reports
            ++ (stream_ended later id file).1,
        rw e refl,
        (views, more, cut, frames, All-le r.frames chunk _ (omega arith) small),
      )
