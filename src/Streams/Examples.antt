-- ===== src/Streams/Examples.antt =====
-- Queues and accounts of transfer_state.rs.
use file_send.Prelude.{
  ltb, leb, ◌==◌, contains, nat_key, text_key, ℕ, ◌+◌, ◌-◌, ◌/◌, ◌≡◌, refl, [], ◌∷◌,
}
use file_send.Float.{F64}
use file_send.Streams.{
  set_insert, Outgoing, Incoming, schedule_loop, schedule, new_incoming, update_speed,
}

-- Six accepted files and two slots.
abbrev six : Outgoing ℕ
six = record {
  offered = (9, 90) ∷ [];
  queue = (0, 0) ∷ (1, 10) ∷ (2, 20) ∷ (3, 30) ∷ [];
  active = 7 ∷ [];
  cancelled = [];
}

one_starts : (schedule six 2).1 ≡ (0, 0) ∷ []
unfolding schedule schedule_loop set_insert contains
one_starts = refl

-- Whole numbers in place of `f64`.
instance abbrev whole : F64 ℕ
whole = record {
  of_nat = λ n. n;
  to_nat = λ n. n;
  add = λ a b. a + b;
  sub = λ a b. a - b;
  div = λ a b. a / b;
  lt = ltb;
  le = leb;
  eq = λ a b. a == b;
}

abbrev fresh : Incoming ℕ
fresh = new_incoming

-- As the test of the file: the window closes 300 ms after it was opened.
window_closes : (update_speed (update_speed fresh 1_000 1_000) 1_000 1_600).win_bytes ≡ 0
unfolding update_speed new_incoming
window_closes = refl
