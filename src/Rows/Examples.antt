-- ===== src/Rows/Examples.antt =====
-- Rows of rows.rs, over natural numbers in place of floats.
use file_send.Prelude.{
  ltb, leb, ◌==◌, if◌then◌else◌, text, nat_key, text_key, ℕ, ◌+◌, ◌-◌, ◌/◌, ◌≡◌, refl, true, false,
  some, List, [],
}
use file_send.Float.{F64}
use file_send.Protocol.{FileStart}
use file_send.Rows.{done, Row, upsert, frac, incoming_offer, send_progress, push_outgoing_pending}
use file_send.Rows.Lookup.{state_of}
use file_send.Rows.Changes.{offer_in, progress_out, add_out, accept_in, apply, concerns, next_state}
use file_send.Rows.Refines.{apply_refines}

-- Whole numbers in place of `f64`.
instance abbrev whole : F64 ℕ
whole = record {
  of_nat = λ n. n;
  to_nat = λ n. n;
  add = λ a b. a + b;
  sub = λ a b. a - b;
  div = λ a b. a / b;
  lt = ltb;
  le = leb;
  eq = λ a b. a == b;
}

abbrev meta : FileStart ℕ
meta = record { id = 7; name = text "a.txt"; size = 100; mime = [] }

-- One file coming in and one going out, both with the id 7.
abbrev two_rows : List (Row ℕ)
two_rows = apply (add_out 7 (text "b.txt") 50) (apply (offer_in meta) [])

finished : state_of (apply (progress_out 7 (text "b.txt") 50 50) two_rows) 7 false ≡ some done
unfolding apply incoming_offer push_outgoing_pending send_progress frac upsert state_of
finished = refl

apply_refines_example : state_of (apply (accept_in 7) two_rows) 7 true ≡ (
    if concerns {F = ℕ} (accept_in 7) 7 true
    then next_state {F = ℕ} (accept_in 7) (state_of two_rows 7 true)
    else state_of two_rows 7 true)
apply_refines_example = apply_refines (accept_in 7) two_rows 7 true
