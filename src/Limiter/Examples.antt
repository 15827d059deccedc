-- ===== src/Limiter/Examples.antt =====
-- Runs of limiter.rs, and its theorems applied to them.
use file_send.Prelude.{
  ltb, length, retain, nat_key, text_key, ◌≡◌, refl, true, false, List, [], ◌∷◌, arith, ℕ_discrete,
}
use file_send.HashMap.{get, insert, remove}
use file_send.Limiter.{
  IpAddr, v4, IpAddr-discrete, ip_key, new, recent, prune_entry, prune, allowed, record_failure,
}
use file_send.Limiter.Recorded.{recorded}
use file_send.Limiter.Window.{Call, fails, call, run, times, allowed_counts_window}

program : Unit {0}
unfolding new prune prune_entry allowed record_failure call run times recorded get insert remove
    IpAddr-discrete ℕ_discrete retain
program = tt

abbrev a : IpAddr
a = v4 0x0a000001

abbrev b : IpAddr
b = v4 0x0a000002

abbrev three : List Call
three = fails a 0 ∷ fails a 1 ∷ fails a 2 ∷ []

allows_up_to_max_then_blocks_within_window :
    ((allowed (run (new 1000 3) three) a 3).1 ≡ false)
    × ((allowed (run (new 1000 3) three) b 3).1 ≡ true)
unfolding program
allows_up_to_max_then_blocks_within_window = (refl, refl)

window_expiry_clears_old_failures :
    ((allowed (run (new 1000 3) three) a 500).1 ≡ false)
    × ((allowed (run (new 1000 3) three) a 1000).1 ≡ true)
unfolding program
window_expiry_clears_old_failures = (refl, refl)

allowed_counts_window_example :
    (allowed (run (new 1000 3) three) a 500).1
    ≡ ltb (length (retain (recent 1000 500) (times a three))) 3
allowed_counts_window_example = allowed_counts_window 1000 3 500 three a (omega arith)
