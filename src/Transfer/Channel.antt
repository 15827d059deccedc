-- ===== src/Transfer/Channel.antt =====
-- crates/client/src/transfer.rs: the stream of one file on its own channel, and the size of its
-- messages.
use file_send.Prelude.{
  if◌then◌else◌, ◌>>=◌, nat_key, text_key, ℕ, ◌-◌, ◌^◌, min, Bool, true, false, ◌&&◌, Option, none,
  some, List, [], ◌++◌, map,
}
use file_send.Float.{F64}
use file_send.Wire.{Json}
use file_send.Protocol.{Control, chunk_size}
use file_send.Transfer.{File, Shared, MessageData, Effect, on_send_progress, stream_ended}
use file_send.Transfer.Send.{World, send_file}

-- `usize::MAX` of the 32-bit target.
abbrev pub usize_max : ℕ
usize_max = 2 ^ 32 - 1

module _ {F : Type 0} ⦃f64 : F64 F⦄ (is_finite : F → Bool) where
  -- `mms` is what the reflection finds: `pc.sctp.maxMessageSize`, if it is a number.
  unfoldable pub max_message_size : Option F → ℕ
  max_message_size none = usize_max
  max_message_size (some m) =
      if is_finite m && f64.le (f64.of_nat 1) m then min (f64.to_nat m) usize_max else usize_max

  unfoldable pub chunk_for : Option F → ℕ
  unfolding max_message_size
  chunk_for mms = min (max_message_size mms) chunk_size

  -- The whole task. The future of `await_channel_open` resolves when the channel opens; where it
  -- never does (`opens` is false) the task stays there and has sent nothing. `later` is the shared state when the stream has ended, of which the flag of
  -- cancellation is read; the result of `send_file` is dropped.
  unfoldable pub send_file_on_channel :
      Json (Control F)
      → World
      → ℕ
      → File F
      → Option F
      → Bool
      → Shared F
      → Option (Shared F × List MessageData × List (Effect F))
  send_file_on_channel json w id file mms opens later = elim opens [
    | false ↦ some (later, [], [])
    | true ↦ do
      sent ← send_file json w id file (chunk_for mms)
      let (after, effects) = stream_ended later id file
      let reports = map (λ n. on_send_progress id file.name n file.size) sent.reports
      some (after, sent.frames, reports ++ effects)
  ]
