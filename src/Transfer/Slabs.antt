-- ===== src/Transfer/Slabs.antt =====
-- `send_file` of transfer.rs ends, and sends a first part of the file, all of it before `End`.
use file_send.Protocol.{chunk_size, slab_size}
use file_send.Transfer.{File}
use file_send.Protocol.Ranges.{
  Tiles, split_ranges-Tiles, slice, drop-length, slice-drop, length-slice-le,
}
use file_send.Prelude.{
  ltb, Bool-cases, Option-cases, length, drop, is_empty, nat_key, text_key, ℕ, zero, suc, ◌+◌, ◌-◌,
  ◌%◌, ◌^◌, ◌≤◌, ◌<◌, min, ◌≡◌, ap, ◌∙◌, inl, inr, false, ◌&&◌, ◌||◌, List, [], ◌∷◌, ◌++◌, arith,
}
use file_send.Float.{F64}
use file_send.Transfer.Send.{World, paced, chunk_loop, slab_loop, send_bytes}
use file_send.Transfer.Chunks.{
  Ran, Ran-stopped, Ran-failed, Ran-complete, Ran-cut, Ran-chunk, Ran-then,
}

drop_all : (xs : List ℕ) (n : ℕ) → n ≡ length xs → drop n xs ≡ []
drop_all xs n e = ap (λ k. drop k xs) e ∙ drop-length xs

module _ {F : Type 0} ⦃f64 : F64 F⦄ (w : World) (chunk : ℕ) (pos : 0 < chunk) where
  chunk_loop-Ran :
      (fuel t : ℕ) (slab : List ℕ) (off : ℕ) (sent : F)
      → length slab + chunk < 2 ^ 32
      → off ≤ length slab
      → length slab ≤ off + fuel
      → Ran chunk (drop off slab) (chunk_loop w fuel t slab off chunk sent)
  unfolding chunk_loop
  chunk_loop-Ran zero t slab off sent word le enough =
      let over : ltb off (length slab) ≡ false = ground arith in
      rw (over) (Ran-complete chunk (drop off slab) t sent (drop_all slab off (omega arith)))
  chunk_loop-Ran (suc fuel) t slab off sent word le enough =
      elim (Bool-cases (ltb off (length slab))) [
        | inr done ↦
            rw (done, chunk_loop)
              (Ran-complete chunk (drop off slab) t sent (drop_all slab off (ground arith)))
        | inl more ↦ elim (Bool-cases (w.is_cancelled t)) [
          | inl gone ↦ rw (more, gone, chunk_loop) (Ran-stopped chunk (drop off slab) t sent)
          | inr live ↦ elim (Option-cases (paced w (t + 1))) [
            | inl parked ↦
                rw (more, live, parked, chunk_loop) (Ran-stopped chunk (drop off slab) t sent)
            | inr (t', ready) ↦ elim (Bool-cases (w.send_ok t')) [
              | inr error ↦
                  rw (more, live, ready, error, chunk_loop)
                    (Ran-failed chunk (drop off slab) t' sent)
              | inl taken ↦
                  rw (more, live, ready, taken, chunk_loop)
                    (let to : ℕ = min ((off + chunk % 2 ^ 32) % 2 ^ 32) (length slab) in
                      let total : F = f64.add sent (f64.of_nat (to - off)) in
                      let rest = chunk_loop w fuel (t' + 1) slab to chunk total in
                      Ran-cut chunk (slice slab (off, to) ++ drop to slab) (drop off slab) _
                        (slice-drop slab off to (ground arith))
                        (Ran-chunk chunk (slice slab (off, to)) (drop to slab) total rest
                          (omega (arith, length-slice-le slab off to))
                          (chunk_loop-Ran fuel (t' + 1) slab to total word (omega arith)
                            (ground arith))))
            ]
          ]
        ]
      ]

module _ {F : Type 0} ⦃f64 : F64 F⦄ (w : World) (chunk : ℕ) (pos : 0 < chunk)
    (small : chunk ≤ chunk_size) where
  slab_loop-Ran :
      (ranges : List (ℕ × ℕ)) (from t : ℕ) (bytes : List ℕ) (sent : F)
      → Tiles slab_size (length bytes) from ranges
      → Ran chunk (drop from bytes) (slab_loop w t bytes ranges chunk sent)
  unfolding slab_loop
  slab_loop-Ran [] from t bytes sent at_end =
      Ran-complete chunk (drop from bytes) t sent (drop_all bytes from at_end)
  slab_loop-Ran ((a, b) ∷ ranges) from t bytes sent (ha, lt, hb, tiles) =
      elim (Bool-cases (w.is_cancelled t)) [
        | inl gone ↦ rw (gone, slab_loop) (Ran-stopped chunk (drop from bytes) t sent)
        | inr live ↦
            elim (Bool-cases (w.read_ok (t + 1) && (is_empty ranges || w.slice_ok (t + 2)))) [
              | inr error ↦
                  rw (live, error, slab_loop) (Ran-failed chunk (drop from bytes) (t + 2) sent)
              | inl ready ↦
                  rw (live, ready, slab_loop)
                    (Ran-cut chunk (slice bytes (a, b) ++ drop b bytes) (drop from bytes) _
                      (slice-drop bytes a b (omega arith) ∙ ap (λ n. drop n bytes) ha)
                      (Ran-then chunk (slice bytes (a, b)) (drop b bytes) _ _
                        (chunk_loop-Ran w chunk pos (length (slice bytes (a, b))) (t + 3)
                          (slice bytes (a, b)) 0 sent (omega (arith, length-slice-le bytes a b))
                          (omega arith) (omega arith))
                        (λ t' sent'. slab_loop-Ran ranges b t' bytes sent' tiles)))
            ]
      ]

  -- The frames of the content: `file.size` counts the bytes, and leaves room in a 64-bit word.
  pub send_bytes-Ran :
      (t : ℕ) (file : File F)
      → f64.to_nat file.size ≡ length file.bytes
      → length file.bytes + slab_size ≤ 2 ^ 64
      → Ran chunk file.bytes (send_bytes w t file chunk)
  unfolding send_bytes
  send_bytes-Ran t file sized word =
      let (ranges, e, tiles) =
        split_ranges-Tiles (length file.bytes) slab_size (omega arith) word in
      let words : min (f64.to_nat file.size) (2 ^ 64 - 1) ≡ length file.bytes =
        omega (arith, sized) in
      rw (words, e)
        (elim (Bool-cases (is_empty ranges || w.slice_ok t)) [
          | inl ok ↦ rw (ok) (slab_loop-Ran ranges 0 (t + 1) file.bytes (f64.of_nat 0) tiles)
          | inr error ↦ rw (error) (Ran-failed chunk file.bytes t (f64.of_nat 0))
        ])
