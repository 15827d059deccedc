-- ===== src/Transfer/Chunks.antt =====
-- What `send_file` of transfer.rs puts on the wire: views that follow each other.
use mathlib.Core.List.{map-append}
use file_send.Prelude.{
  ◌>>=◌, length, first, All, All-append, nat_key, text_key, ℕ, ◌≤◌, ◌≡◌, refl, sym, ap, ◌∙◌, subst,
  ◌≢◌, ◌⊎◌, inl, inr, Option, some, List, [], ◌∷◌, ◌++◌, map, append_assoc, append-nil,
}
use file_send.Protocol.Ranges.{flatten}
use file_send.Transfer.{MessageData, binary}
use file_send.Transfer.Send.{Ending, complete, stopped, failed, Sent, ended, after_chunk, and_then}

-- The frames are the first part of some bytes, cut into views of at most `limit` bytes, and they are
-- all of them where the run was complete.
unfoldable pub Sends : {F : Type 0} → ℕ → List ℕ → Sent F → Type 0
Sends limit bytes r =
    (views : List (List ℕ)) × (rest : List ℕ) × (r.frames ≡ map binary views)
    × (flatten views ++ rest ≡ bytes)
    × (r.ending ≡ complete → rest ≡ [])
    × All (λ v. length v ≤ limit) views

-- A run that does not get stuck, and what it sends.
unfoldable pub Ran : {F : Type 0} → ℕ → List ℕ → Option (Sent F) → Type 0
Ran {F} limit bytes o = (r : Sent F) × (o ≡ some r) × Sends limit bytes r

pub Ending-cases : (e : Ending) → (e ≡ complete) ⊎ (e ≡ stopped) ⊎ (e ≡ failed)
Ending-cases complete = inl refl
Ending-cases stopped = inr (inl refl)
Ending-cases failed = inr (inr refl)

pub flatten-append : (xs ys : List (List ℕ)) → flatten (xs ++ ys) ≡ flatten xs ++ flatten ys
unfolding flatten
flatten-append [] ys = refl
flatten-append (x ∷ xs) ys =
    ap (x ++◌) (flatten-append xs ys) ∙ sym (append_assoc x (flatten xs) (flatten ys))

pub not_stopped : (e : Ending) → e ≡ complete → e ≢ stopped
not_stopped e c s = cc (c, s)

pub not_failed : (e : Ending) → e ≡ complete → e ≢ failed
not_failed e c f = cc (c, f)

joined_frames :
    (fs gs : List MessageData) (views views' : List (List ℕ))
    → fs ≡ map binary views
    → gs ≡ map binary views'
    → fs ++ gs ≡ map binary (views ++ views')
joined_frames fs gs views views' f g =
    ap (λ q. q ++ gs) f ∙ ap (map binary views ++◌) g ∙ sym (map-append binary views views')

joined_bytes :
    (views views' : List (List ℕ)) (rest rest' bytes more : List ℕ)
    → flatten views ++ rest ≡ bytes
    → rest ≡ []
    → flatten views' ++ rest' ≡ more
    → flatten (views ++ views') ++ rest' ≡ bytes ++ more
joined_bytes views views' rest rest' bytes more cut full cut' =
    let whole : flatten views ≡ bytes =
      sym (append-nil (flatten views)) ∙ ap (λ q. flatten views ++ q) (sym full) ∙ cut in
    ap (λ q. q ++ rest') (flatten-append views views')
    ∙ append_assoc (flatten views) (flatten views') rest'
    ∙ ap (λ q. flatten views ++ q) cut'
    ∙ ap (λ q. q ++ more) whole

module _ {F : Type 0} where
  pub Ran-stopped :
      (limit : ℕ) (bytes : List ℕ) (t : ℕ) (sent : F)
      → Ran limit bytes (some (ended stopped t sent))
  unfolding Ran Sends flatten
  Ran-stopped limit bytes t sent =
      (ended stopped t sent, refl, ([], bytes, refl, refl, (λ e. cc), tt))

  pub Ran-failed :
      (limit : ℕ) (bytes : List ℕ) (t : ℕ) (sent : F) → Ran limit bytes (some (ended failed t sent))
  unfolding Ran Sends flatten
  Ran-failed limit bytes t sent =
      (ended failed t sent, refl, ([], bytes, refl, refl, (λ e. cc), tt))

  pub Ran-complete :
      (limit : ℕ) (bytes : List ℕ) (t : ℕ) (sent : F)
      → bytes ≡ []
      → Ran limit bytes (some (ended complete t sent))
  unfolding Ran Sends flatten
  Ran-complete limit bytes t sent e =
      (ended complete t sent, refl, ([], [], refl, sym e, (λ c. refl), tt))

  pub Ran-cut :
      (limit : ℕ) (bytes bytes' : List ℕ) (o : Option (Sent F))
      → bytes ≡ bytes'
      → Ran limit bytes o
      → Ran limit bytes' o
  Ran-cut limit bytes bytes' o e ran = subst (λ q. Ran limit q o) e ran

  pub Ran-chunk :
      (limit : ℕ) (view bytes : List ℕ) (report : F) (o : Option (Sent F))
      → length view ≤ limit
      → Ran limit bytes o
      → Ran limit (view ++ bytes) (do rest ← o; some (after_chunk (binary view) report rest))
  unfolding Ran Sends flatten
  Ran-chunk limit view bytes report o fits (r, e, (views, rest, frames, cut, full, small)) = (
    after_chunk (binary view) report r,
    ap (λ q. q >>= (λ after. some (after_chunk (binary view) report after))) e,
    (
      view ∷ views,
      rest,
      ap (binary view ∷◌) frames,
      append_assoc view (flatten views) rest ∙ ap (view ++◌) cut,
      full,
      (fits, small),
    ),
  )

  pub Ran-then :
      (limit : ℕ) (bytes more : List ℕ) (o : Option (Sent F)) (next : ℕ → F → Option (Sent F))
      → Ran limit bytes o
      → ((t : ℕ) (sent : F) → Ran limit more (next t sent))
      → Ran limit (bytes ++ more) (do first ← o; and_then first next)
  unfolding Ran Sends flatten and_then
  Ran-then limit bytes more o next (r, e, (views, rest, frames, cut, full, small)) go =
      elim (Ending-cases r.ending) [
        | inl done ↦
            (let (r', e', (views', rest', frames', cut', full', small')) = go r.time r.total in
              (
                record r' { frames = r.frames ++ r'.frames; reports = r.reports ++ r'.reports },
                rw (e, done, e') refl,
                (
                  views ++ views',
                  rest',
                  joined_frames r.frames r'.frames views views' frames frames',
                  joined_bytes views views' rest rest' bytes more cut (full done) cut',
                  full',
                  All-append _ views views' small small',
                ),
              ))
        | inr (inl early) ↦ (
          r,
          rw (e, early) refl,
          (
            views,
            rest ++ more,
            frames,
            sym (append_assoc (flatten views) rest more) ∙ ap (λ q. q ++ more) cut,
            (λ c. absurd (not_stopped r.ending c early)),
            small,
          ),
        )
        | inr (inr error) ↦ (
          r,
          rw (e, error) refl,
          (
            views,
            rest ++ more,
            frames,
            sym (append_assoc (flatten views) rest more) ∙ ap (λ q. q ++ more) cut,
            (λ c. absurd (not_failed r.ending c error)),
            small,
          ),
        )
      ]
