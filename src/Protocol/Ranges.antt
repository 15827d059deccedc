-- ===== src/Protocol/Ranges.antt =====
-- `split_ranges` of protocol.rs tiles a file.
use file_send.Prelude.{
  length, take, drop, nat_key, text_key, ℕ, zero, suc, ◌+◌, ◌-◌, ◌*◌, ◌%◌, ◌^◌, ◌≤◌, ◌<◌, min, ◌≡◌,
  refl, sym, ap, ◌∙◌, ◌≡⟨◌⟩◌, ◌∎, some, List, [], ◌∷◌, ◌++◌, map, arith, dec_lt,
}
use file_send.Protocol.{range_loop, split_ranges}

-- Consecutive ranges from `from` to `total`, each of `step` bytes but the last.
abbrev pub Tiles : ℕ → ℕ → ℕ → List (ℕ × ℕ) → Type 0
Tiles step total from [] = from ≡ total
Tiles step total from ((a, b) ∷ rs) =
    (a ≡ from) × (from < total) × (b ≡ min (from + step) total) × Tiles step total b rs

range_loop-Tiles :
    (fuel total step from : ℕ)
    → 0 < step
    → total + step ≤ 2 ^ 64
    → from ≤ total
    → total ≤ from + fuel
    → (rs : List (ℕ × ℕ)) × (range_loop fuel total step from ≡ some rs) × Tiles step total from rs
unfolding range_loop
range_loop-Tiles zero total step from pos word le enough = ([], ground arith, ground arith)
range_loop-Tiles (suc fuel) total step from pos word le enough = elim (dec_lt from total) [
  | yes lt ↦
      (let to : ℕ = min ((from + step) % 2 ^ 64) total in
        let next = range_loop-Tiles fuel total step to pos word (omega arith) (omega arith) in
        ((from, to) ∷ next.0, ground (arith, next.1), (refl, lt, omega arith, next.2)))
  | no ge ↦ ([], ground arith, ground arith)
]

-- Where `total + step` stays in a 64-bit word and `step` is not 0, `split_ranges` ends, and its
-- ranges follow each other from 0 to `total`, all of `step` bytes but the last.
pub split_ranges-Tiles :
    (total step : ℕ)
    → 0 < step
    → total + step ≤ 2 ^ 64
    → (rs : List (ℕ × ℕ)) × (split_ranges total step ≡ some rs) × Tiles step total 0 rs
unfolding split_ranges
split_ranges-Tiles total step pos word =
    let (rs, e, t) = range_loop-Tiles total total step 0 pos word (omega arith) (omega arith) in
    (rs, ground (arith, e), t)

-- The bytes of one range.
unfoldable pub slice {ℓ} : {A : Type ℓ} → List A → ℕ × ℕ → List A
slice xs (a, b) = take (b - a) (drop a xs)

unfoldable pub flatten {ℓ} : {A : Type ℓ} → List (List A) → List A
flatten [] = []
flatten (x ∷ xs) = x ++ flatten xs

take-drop {ℓ} : {A : Type ℓ} (n : ℕ) (xs : List A) → take n xs ++ drop n xs ≡ xs
take-drop zero xs = refl
take-drop (suc n) [] = refl
take-drop (suc n) (x ∷ xs) = ap (x ∷◌) (take-drop n xs)

cut {ℓ} : {A : Type ℓ} (i j : ℕ) (xs : List A) → i ≡ j → drop i xs ≡ drop j xs
cut i j xs e = ap (λ k. drop k xs) e

drop-drop {ℓ} : {A : Type ℓ} (n m : ℕ) (xs : List A) → drop n (drop m xs) ≡ drop (m + n) xs
drop-drop n zero xs = cut n (0 + n) xs (omega arith)
drop-drop zero (suc m) [] = cut (suc m) (suc m + 0) [] (omega arith)
drop-drop (suc n) (suc m) [] = cut (suc (m + suc n)) (suc m + suc n) [] (omega arith)
drop-drop n (suc m) (x ∷ xs) =
    drop-drop n m xs ∙ cut (suc (m + n)) (suc m + n) (x ∷ xs) (omega arith)

pub drop-length {ℓ} : {A : Type ℓ} (xs : List A) → drop (length xs) xs ≡ []
drop-length [] = refl
drop-length (x ∷ xs) = drop-length xs

pub slice-drop {ℓ} :
    {A : Type ℓ} (xs : List A) (a b : ℕ) → a ≤ b → slice xs (a, b) ++ drop b xs ≡ drop a xs
unfolding slice
slice-drop xs a b le =
    take (b - a) (drop a xs) ++ drop b xs
    ≡⟨ ap (take (b - a) (drop a xs) ++◌) (cut b (a + (b - a)) xs (omega arith)) ⟩
      take (b - a) (drop a xs) ++ drop (a + (b - a)) xs
    ≡⟨ ap (take (b - a) (drop a xs) ++◌) (sym (drop-drop (b - a) a xs)) ⟩
      take (b - a) (drop a xs) ++ drop (b - a) (drop a xs)
    ≡⟨ take-drop (b - a) (drop a xs) ⟩ drop a xs ∎

length-take-le {ℓ} : {A : Type ℓ} (n : ℕ) (xs : List A) → length (take n xs) ≤ n
length-take-le zero xs = omega arith
length-take-le (suc n) [] = omega arith
length-take-le (suc n) (x ∷ xs) = omega (arith, length-take-le n xs)

pub length-slice-le {ℓ} : {A : Type ℓ} (xs : List A) (a b : ℕ) → length (slice xs (a, b)) ≤ b - a
unfolding slice
length-slice-le xs a b = length-take-le (b - a) (drop a xs)

-- The ranges cut any list of that length into pieces that give it back.
pub Tiles-slice {ℓ} :
    {A : Type ℓ} (xs : List A) (step from : ℕ) (rs : List (ℕ × ℕ))
    → Tiles step (length xs) from rs
    → flatten (map (slice xs) rs) ≡ drop from xs
unfolding flatten slice
Tiles-slice xs step from [] h = sym (ap (λ n. drop n xs) h ∙ drop-length xs)
Tiles-slice xs step from ((a, b) ∷ rs) (ha, lt, hb, h) =
    slice xs (a, b) ++ flatten (map (slice xs) rs)
    ≡⟨ ap (slice xs (a, b) ++◌) (Tiles-slice xs step b rs h) ⟩ slice xs (a, b) ++ drop b xs
    ≡⟨ slice-drop xs a b (omega arith) ⟩ drop a xs
    ≡⟨ ap (λ n. drop n xs) ha ⟩ drop from xs ∎

-- The number of ranges is `total / step`, rounded up.
pub Tiles-count :
    (step total from : ℕ) (rs : List (ℕ × ℕ))
    → 0 < step
    → from ≤ total
    → Tiles step total from rs
    → (total ≤ from + step * length rs) × (step * length rs < total - from + step)
Tiles-count step total from [] pos le h = (ground arith, ground arith)
Tiles-count step total from ((a, b) ∷ []) pos le (ha, lt, hb, h) = (ground arith, ground arith)
Tiles-count step total from ((a, b) ∷ (c, d) ∷ rs) pos le (ha, lt, hb, h) =
    let (most, least) = Tiles-count step total b ((c, d) ∷ rs) pos (omega arith) h in
    let inner = h.1 in (ground arith, ground arith)

-- `split_ranges` cuts any bytes whose number leaves room for a step in a 64-bit word: it ends, the
-- slices at its ranges give the bytes back in order, and there are `length / step` of them, rounded
-- up, for a step that is not 0.
pub split_ranges_covers {ℓ} :
    {A : Type ℓ} (xs : List A) (step : ℕ)
    → 0 < step
    → length xs + step ≤ 2 ^ 64
    → (rs : List (ℕ × ℕ)) × (split_ranges (length xs) step ≡ some rs)
      × (flatten (map (slice xs) rs) ≡ xs)
      × (length xs ≤ step * length rs)
      × (step * length rs < length xs + step)
split_ranges_covers xs step pos word =
    let (rs, e, tiles) = split_ranges-Tiles (length xs) step pos word in
    let (most, least) = Tiles-count step (length xs) 0 rs pos (omega arith) tiles in
    (rs, e, Tiles-slice xs step 0 rs tiles, omega (arith, most), omega (arith, least))
