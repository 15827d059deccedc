-- ===== src/Transfer/Frames.antt =====
-- The frames of one file's channel in transfer.rs: `Start`, the bytes, `End`.
use mathlib.Core.List.{map-append}
use file_send.Transfer.Slabs.{send_bytes-Ran}
use file_send.Prelude.{
  ◌>>=◌, Bool-cases, length, All, All-append, nat_key, text_key, ℕ, ◌+◌, ◌^◌, ◌≤◌, ◌<◌, ◌≡◌, refl,
  sym, ap, ◌∙◌, subst, inl, inr, Option, some, List, [], ◌∷◌, ◌++◌, map, append_assoc, append-nil,
  arith,
}
use file_send.Float.{F64}
use file_send.Wire.{Json}
use file_send.Protocol.{chunk_size, slab_size, Control, encode_control}
use file_send.Protocol.Ranges.{flatten}
use file_send.Transfer.{File, MessageData, string, binary, meta_of}
use file_send.Transfer.Send.{
  World, complete, failed, Sent, ended, and_then, send_frame, send_bytes, send_file,
}
use file_send.Transfer.Chunks.{Sends, Ran, Ending-cases, flatten-append, not_stopped, not_failed}

-- How many bytes a binary message carries. A control frame is a string, which no size limits.
abbrev pub binary_len : MessageData → ℕ
binary_len (string s) = 0
binary_len (binary bytes) = length bytes

module _ {F : Type 0} ⦃f64 : F64 F⦄ (json : Json (Control F)) where
  abbrev pub start_frame : ℕ → File F → MessageData
  start_frame id file = string (encode_control json (Control.start (meta_of id file)))

  abbrev pub final_frame : ℕ → MessageData
  final_frame id = string (encode_control json (Control.end_frame (record { id = id })))

  -- All frames of a file that is cut into `views`.
  unfoldable pub whole_file : ℕ → File F → List (List ℕ) → List MessageData
  whole_file id file views = start_frame id file ∷ map binary views ++ final_frame id ∷ []

-- Frames that begin what is expected, are all of it where the run was complete, and are small.
unfoldable pub Begins :
    {F : Type 0} → ℕ → (List (List ℕ) → List MessageData) → List ℕ → Sent F → Type 0
Begins {F} limit expected bytes r =
    (views : List (List ℕ)) × (more : List MessageData) × (flatten views ≡ bytes)
    × (r.frames ++ more ≡ expected views)
    × (r.ending ≡ complete → more ≡ [])
    × All (λ f. binary_len f ≤ limit) r.frames

views_small :
    (limit : ℕ) (views : List (List ℕ))
    → All (λ v. length v ≤ limit) views
    → All (λ f. binary_len f ≤ limit) (map binary views)
views_small limit [] h = tt
views_small limit (v ∷ vs) h = (h.0, views_small limit vs h.1)

small_frames :
    (limit : ℕ) (frames : List MessageData) (views : List (List ℕ))
    → frames ≡ map binary views
    → All (λ v. length v ≤ limit) views
    → All (λ f. binary_len f ≤ limit) frames
small_frames limit frames views e h =
    subst (λ fs. All (λ f. binary_len f ≤ limit) fs) (sym e) (views_small limit views h)

-- Where the sending of the bytes ends early, the rest of the bytes and `End` are missing.
cut_short :
    (fs : List MessageData) (views : List (List ℕ)) (rest : List ℕ) (fin : MessageData)
    → fs ≡ map binary views
    → fs ++ binary rest ∷ fin ∷ [] ≡ map binary (views ++ rest ∷ []) ++ fin ∷ []
cut_short fs views rest fin e =
    ap (λ q. q ++ binary rest ∷ fin ∷ []) e
    ∙ sym (append_assoc (map binary views) (binary rest ∷ []) (fin ∷ []))
    ∙ ap (λ q. q ++ fin ∷ []) (sym (map-append binary views (rest ∷ [])))

pub flatten-snoc :
    (views : List (List ℕ)) (rest : List ℕ) → flatten (views ++ rest ∷ []) ≡ flatten views ++ rest
unfolding flatten
flatten-snoc views rest =
    flatten-append views (rest ∷ []) ∙ ap (λ q. flatten views ++ q) (append-nil rest)

all_sent :
    (views : List (List ℕ)) (rest bytes : List ℕ)
    → flatten views ++ rest ≡ bytes
    → rest ≡ []
    → flatten views ≡ bytes
all_sent views rest bytes cut full =
    sym (append-nil (flatten views)) ∙ ap (λ q. flatten views ++ q) (sym full) ∙ cut

module _ {F : Type 0} (w : World) where
  -- `End` after the bytes, where the run of the bytes was complete.
  finish-Begins :
      (limit : ℕ) (bytes : List ℕ) (fin : MessageData) (o : Option (Sent F))
      → binary_len fin ≡ 0
      → Ran limit bytes o
      → (r : Sent F) × ((do body ← o; and_then body (λ t sent. some (send_frame w t fin sent)))
          ≡ some r)
        × Begins limit (λ views. map binary views ++ fin ∷ []) bytes r
  unfolding Ran Sends Begins and_then send_frame
  finish-Begins limit bytes fin o zero_len (r, e, (views, rest, frames, cut, full, small)) =
      elim (Ending-cases r.ending) [
        | inl done ↦ elim (Bool-cases (w.send_ok r.time)) [
          | inl ok ↦ (
            record {
              ending = complete;
              frames = r.frames ++ fin ∷ [];
              reports = r.reports ++ [];
              time = r.time + 1;
              total = r.total;
            },
            rw (e, done, ok) refl,
            (
              views,
              [],
              all_sent views rest bytes cut (full done),
              append-nil (r.frames ++ fin ∷ []) ∙ ap (λ q. q ++ fin ∷ []) frames,
              (λ c. refl),
              All-append _ r.frames (fin ∷ []) (small_frames limit r.frames views frames small)
                  (omega (arith, zero_len), tt),
            ),
          )
          | inr error ↦ (
            record {
              ending = failed;
              frames = r.frames ++ [];
              reports = r.reports ++ [];
              time = r.time;
              total = r.total;
            },
            rw (e, done, error) refl,
            (
              views,
              fin ∷ [],
              all_sent views rest bytes cut (full done),
              ap (λ q. q ++ fin ∷ []) (append-nil r.frames ∙ frames),
              (λ c. absurd (not_failed failed c refl)),
              All-append _ r.frames [] (small_frames limit r.frames views frames small) tt,
            ),
          )
        ]
        | inr (inl early) ↦ (
          r,
          rw (e, early) refl,
          (
            views ++ rest ∷ [],
            binary rest ∷ fin ∷ [],
            flatten-snoc views rest ∙ cut,
            cut_short r.frames views rest fin frames,
            (λ c. absurd (not_stopped r.ending c early)),
            small_frames limit r.frames views frames small,
          ),
        )
        | inr (inr error) ↦ (
          r,
          rw (e, error) refl,
          (
            views ++ rest ∷ [],
            binary rest ∷ fin ∷ [],
            flatten-snoc views rest ∙ cut,
            cut_short r.frames views rest fin frames,
            (λ c. absurd (not_failed r.ending c error)),
            small_frames limit r.frames views frames small,
          ),
        )
      ]

module _ {F : Type 0} ⦃f64 : F64 F⦄ (json : Json (Control F)) (w : World) where
  -- However the browser answers, `send_file` ends. What it has put on the channel is the beginning
  -- of `Start`, the bytes of the file in order, `End`; all of it where the file was neither
  -- cancelled nor a send failed; and no binary message is longer than `chunk`. The file's
  -- `size` is the number of its bytes and leaves room for a slab in a 64-bit word.
  pub send_file-Begins :
      (id : ℕ) (file : File F) (chunk : ℕ)
      → 0 < chunk
      → chunk ≤ chunk_size
      → f64.to_nat file.size ≡ length file.bytes
      → length file.bytes + slab_size ≤ 2 ^ 64
      → (r : Sent F) × (send_file json w id file chunk ≡ some r)
        × Begins chunk (whole_file json id file) file.bytes r
  unfolding send_file Begins whole_file send_frame and_then flatten
  send_file-Begins id file chunk pos small sized word = elim (Bool-cases (w.send_ok 0)) [
    | inr error ↦ (
      ended failed 0 (f64.of_nat 0),
      rw (error) refl,
      (
        file.bytes ∷ [],
        whole_file json id file (file.bytes ∷ []),
        flatten-snoc [] file.bytes,
        refl,
        (λ c. absurd (not_failed failed c refl)),
        tt,
      ),
    )
    | inl ok ↦
        (let (r, e, (views, more, cut, frames, full, smalls)) =
            finish-Begins w chunk file.bytes (final_frame json id) (send_bytes w 1 file chunk) refl
              (send_bytes-Ran w chunk pos small 1 file sized word) in
          (
            record r { frames = start_frame json id file ∷ r.frames },
            rw (ok, e) refl,
            (
              views,
              more,
              cut,
              ap (start_frame json id file ∷◌) frames,
              full,
              (omega arith, smalls),
            ),
          ))
  ]
