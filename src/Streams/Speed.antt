-- ===== src/Streams/Speed.antt =====
-- The receiver's account of the chunks of one file: transfer_state.rs.
use file_send.Float.{F64}
use file_send.Prelude.{
  Bool-cases, nat_key, text_key, ◌≡◌, refl, ap, ◌∙◌, inl, inr, List, [], ◌∷◌, arith,
}
use file_send.Streams.{Incoming, update_speed, account_chunk}

module _ {F : Type 0} ⦃f64 : F64 F⦄ where
  -- The account after chunks of some lengths, each with the time it came at.
  unfoldable pub account_all : Incoming F → List (F × F) → Incoming F
  account_all inc [] = inc
  account_all inc ((len, now) ∷ rest) = account_all (account_chunk inc len now).0 rest

  -- The sum of the lengths, added from the left as the code adds them.
  unfoldable pub sum_from : F → List (F × F) → F
  sum_from total [] = total
  sum_from total ((len, now) ∷ rest) = sum_from (f64.add total len) rest

  pub update_speed-keeps :
      (inc : Incoming F) (len now : F)
      → let after = update_speed inc len now in
        (after.meta ≡ inc.meta) × (after.chunks ≡ inc.chunks) × (after.received ≡ inc.received)
  unfolding update_speed
  update_speed-keeps inc len now = elim (Bool-cases (f64.eq inc.win_start (f64.of_nat 0))) [
    | inl unset ↦ ground arith
    | inr set ↦ ground arith
  ]

  -- After any chunks, whenever they come, the account holds the sum of their lengths added in
  -- the order in which they came, and still the file and the parts that it had before.
  pub account_all-received :
      (rest : List (F × F)) (inc : Incoming F)
      → let after = account_all inc rest in
        (after.received ≡ sum_from inc.received rest)
        × (after.meta ≡ inc.meta)
        × (after.chunks ≡ inc.chunks)
  unfolding account_all sum_from account_chunk
  account_all-received [] inc = (refl, refl, refl)
  account_all-received ((len, now) ∷ rest) inc =
      let (same_meta, same_chunks, same_received) =
        update_speed-keeps (record inc { received = f64.add inc.received len }) len now in
      let (total, meta, chunks) = account_all-received rest (account_chunk inc len now).0 in
      (total ∙ ap (λ x. sum_from x rest) same_received, meta ∙ same_meta, chunks ∙ same_chunks)
