-- ===== src/Transfer/Send.antt =====
-- crates/client/src/transfer.rs: `send_file`, with the answers of the browser as a parameter.
use file_send.Prelude.{
  ltb, if◌then◌else◌, ◌>>=◌, length, is_empty, first, nat_key, text_key, ℕ, zero, suc, ◌+◌, ◌-◌,
  ◌%◌, ◌^◌, min, Bool, true, false, ◌&&◌, ◌||◌, Option, none, some, List, [], ◌∷◌, ◌++◌,
}
use file_send.Float.{F64}
use file_send.Wire.{Json}
use file_send.Protocol.{slab_size, Control, encode_control, split_ranges}
use file_send.Protocol.Ranges.{slice}
use file_send.Transfer.{File, MessageData, string, binary, meta_of}

-- What the browser answers at each point in time: whether a slice and a read succeed, whether a
-- send is taken, whether the buffer is too full, and whether the file was cancelled by then.
pub record World : Type 0 where
  pub is_cancelled : ℕ → Bool
  pub slice_ok : ℕ → Bool
  pub read_ok : ℕ → Bool
  pub send_ok : ℕ → Bool
  pub is_full : ℕ → Bool

-- How `send_file` or one of its loops ends: `Ok` at the end, `Ok` early, or an error.
pub data Ending : Type 0 where
  complete : Ending
  stopped : Ending
  failed : Ending

-- What was sent, the progress reported, the time and the total when it ended.
pub record Sent (F : Type 0) : Type 0 where
  pub ending : Ending
  pub frames : List MessageData
  pub reports : List F
  pub time : ℕ
  pub total : F

module _ {F : Type 0} where
  abbrev pub ended : Ending → ℕ → F → Sent F
  ended e time sent = record { ending = e; frames = []; reports = []; time = time; total = sent }

  -- One frame, and one report, before what follows.
  abbrev pub after_frame : MessageData → Sent F → Sent F
  after_frame frame rest = record rest { frames = frame ∷ rest.frames }

  abbrev pub after_chunk : MessageData → F → Sent F → Sent F
  after_chunk frame report rest = record rest {
    frames = frame ∷ rest.frames;
    reports = report ∷ rest.reports;
  }

  -- What a loop does when the one before it ended: only after `complete` it goes on.
  unfoldable pub and_then : Sent F → (ℕ → F → Option (Sent F)) → Option (Sent F)
  and_then first next = elim first.ending [
    | complete ↦ (do
      rest ← next first.time first.total
      some (record rest {
        frames = first.frames ++ rest.frames;
        reports = first.reports ++ rest.reports;
      }))
    | stopped ↦ some first
    | failed ↦ some first
  ]

  -- One control frame, when the channel takes it.
  unfoldable pub send_frame : World → ℕ → MessageData → F → Sent F
  send_frame w t frame sent =
      if w.send_ok t then after_frame frame (ended complete (t + 1) sent) else ended failed t sent

-- The wait for the buffer: the time after it, or `none` when the file was cancelled meanwhile.
unfoldable pub paced : World → ℕ → Option ℕ
paced w t =
    if w.is_full t then (if w.is_cancelled (t + 1) then none else some (t + 2)) else some (t + 1)

module _ {F : Type 0} ⦃f64 : F64 F⦄ (w : World) where
  -- The inner loop of `send_file`, on fuel: `slab` is sent from `off` in views of `chunk` bytes.
  unfoldable pub chunk_loop : ℕ → ℕ → List ℕ → ℕ → ℕ → F → Option (Sent F)
  chunk_loop zero t slab off chunk sent =
      if ltb off (length slab) then none else some (ended complete t sent)
  chunk_loop (suc fuel) t slab off chunk sent = elim (ltb off (length slab)) [
    | false ↦ some (ended complete t sent)
    | true ↦ elim (w.is_cancelled t) [
      | true ↦ some (ended stopped t sent)
      | false ↦
          (let to = min ((off + chunk % 2 ^ 32) % 2 ^ 32) (length slab) in
            elim (paced w (t + 1)) [
              | none ↦ some (ended stopped t sent)
              | some t' ↦ elim (w.send_ok t') [
                | false ↦ some (ended failed t' sent)
                | true ↦
                    (let total = f64.add sent (f64.of_nat (to - off)) in
                      do
                        rest ← chunk_loop fuel (t' + 1) slab to chunk total
                        some (after_chunk (binary (slice slab (off, to))) total rest))
              ]
            ])
    ]
  ]

  -- The outer loop: the read of the first range has begun.
  unfoldable pub slab_loop : ℕ → List ℕ → List (ℕ × ℕ) → ℕ → F → Option (Sent F)
  slab_loop t bytes [] chunk sent = some (ended complete t sent)
  slab_loop t bytes (range ∷ ranges) chunk sent = elim (w.is_cancelled t) [
    | true ↦ some (ended stopped t sent)
    | false ↦ elim (w.read_ok (t + 1) && (is_empty ranges || w.slice_ok (t + 2))) [
      | false ↦ some (ended failed (t + 2) sent)
      | true ↦
          (let slab = slice bytes range in
            do
              first ← chunk_loop (length slab) (t + 3) slab 0 chunk sent
              and_then first (λ t' sent'. slab_loop t' bytes ranges chunk sent'))
    ]
  ]

  -- The frames between `Start` and `End`. The cast of the size to a 64-bit word saturates.
  unfoldable pub send_bytes : ℕ → File F → ℕ → Option (Sent F)
  send_bytes t file chunk = do
    ranges ← split_ranges (min (f64.to_nat file.size) (2 ^ 64 - 1)) slab_size
    if is_empty ranges || w.slice_ok t
        then slab_loop (t + 1) file.bytes ranges chunk (f64.of_nat 0)
        else some (ended failed t (f64.of_nat 0))

module _ {F : Type 0} ⦃f64 : F64 F⦄ (json : Json (Control F)) (w : World) where
  unfoldable pub send_file : ℕ → File F → ℕ → Option (Sent F)
  send_file id file chunk =
      let start = string (encode_control json (Control.start (meta_of id file))) in
      let fin = string (encode_control json (Control.end_frame (record { id = id }))) in
      and_then (send_frame w 0 start (f64.of_nat 0)) (λ t sent. (do
        body ← send_bytes w t file chunk
        and_then body (λ t' sent'. some (send_frame w t' fin sent'))))
