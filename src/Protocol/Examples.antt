-- ===== src/Protocol/Examples.antt =====
-- Ranges of protocol.rs.
use file_send.Prelude.{
  length, nat_key, text_key, ℕ, ◌+◌, ◌*◌, ◌≤◌, ◌<◌, ◌≡◌, refl, some, List, [], ◌∷◌, map, arith,
}
use file_send.Protocol.{range_loop, split_ranges}
use file_send.Protocol.Ranges.{slice, flatten, split_ranges_covers}

ten_by_four : split_ranges 10 4 ≡ some ((0, 4) ∷ (4, 8) ∷ (8, 10) ∷ [])
unfolding split_ranges range_loop
ten_by_four = refl

nothing : split_ranges 0 4 ≡ some []
unfolding split_ranges range_loop
nothing = refl

abbrev bytes : List ℕ
bytes = 7 ∷ 8 ∷ 9 ∷ []

split_ranges_covers_example :
    (rs : List (ℕ × ℕ)) × (split_ranges 3 2 ≡ some rs)
    × (flatten (map (slice bytes) rs) ≡ bytes)
    × (3 ≤ 2 * length rs)
    × (2 * length rs < 3 + 2)
split_ranges_covers_example = split_ranges_covers bytes 2 (omega arith) (omega arith)
