-- ===== src/Signaling/Examples.antt =====
-- Runs of the reconnecting socket of signaling.rs.
use file_send.Prelude.{nat_key, text_key, ◌≡◌, refl, true, false, List, [], ◌∷◌}
use file_send.Signaling.{next_backoff, connect, Event, opens, closes, fires}
use file_send.Signaling.Backoff.{backoff_for, next_backoff_lem}
use file_send.Signaling.Alive.{run, IsAlive, connect-IsAlive, run-IsAlive}

backoff_doubles : next_backoff 3 ≡ 4_000
unfolding next_backoff
backoff_doubles = refl

next_backoff_lem_example : next_backoff 62 ≡ backoff_for 62
next_backoff_lem_example = next_backoff_lem 62

abbrev drops : List Event
drops = opens ∷ closes ∷ fires false ∷ fires true ∷ closes ∷ []

run-IsAlive_example : IsAlive (run connect drops)
run-IsAlive_example = run-IsAlive drops connect connect-IsAlive
