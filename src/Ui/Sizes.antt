-- ===== src/Ui/Sizes.antt =====
-- The unit in which ui.rs shows a size.
use file_send.Prelude.{
  Bool-cases, nat_key, text_key, ℕ, zero, suc, ◌+◌, ◌≤◌, ◌<◌, ◌≡◌, inl, inr, true, false, Bool,
  arith,
}
use file_send.Float.{F64}
use file_send.Ui.{scale}

module _ {F : Type 0} ⦃f64 : F64 F⦄ where
  -- A size in units of 1024 to a power.
  pub in_units : F → ℕ → F
  in_units v zero = v
  in_units v (suc u) = in_units (f64.div v (f64.of_nat 1024)) u

  -- Whether it is too large for them.
  abbrev pub is_large : F → Bool
  is_large v = f64.le (f64.of_nat 1024) v

  scale_lem :
      (left : ℕ) (v : F) (u : ℕ)
      → (k : ℕ) × (scale v u left ≡ (in_units v k, u + k))
        × (k ≤ left)
        × ((i : ℕ) → i < k → is_large (in_units v i) ≡ true)
        × (k < left → is_large (in_units v k) ≡ false)
  unfolding scale in_units
  scale_lem zero v u =
      (0, ground arith, omega arith, (λ i lt. absurd (omega arith)), (λ lt. absurd (omega arith)))
  scale_lem (suc left) v u = elim (Bool-cases (is_large v)) [
    | inr fits ↦ (
      0,
      rw (fits, scale) (ground arith),
      omega arith,
      (λ i lt. absurd (omega arith)),
      (λ lt. fits),
    )
    | inl large ↦
        (let (k, e, few, above, below) = scale_lem left (f64.div v (f64.of_nat 1024)) (u + 1) in
          (
            suc k,
            rw (large, scale) (ground (arith, e)),
            omega arith,
            larger k large above,
            (λ lt. below (omega arith)),
          ))
  ]
    where
      larger :
          (k : ℕ)
          → is_large v ≡ true
          → ((i : ℕ) → i < k → is_large (in_units (f64.div v (f64.of_nat 1024)) i) ≡ true)
          → (i : ℕ) → i < suc k
          → is_large (in_units v i) ≡ true
      larger k now above zero lt = now
      larger k now above (suc i) lt = above i (omega arith)

  -- The loop of `fmt_size` stops at the least unit in which a size is below 1024, or at gigabytes
  -- where there is none before: the value it shows is the size in that unit, in every smaller unit the size is at least 1024, and below
  -- gigabytes it is less than 1024 in the unit shown.
  pub scale_least :
      (bytes : F)
      → (u : ℕ) × (scale bytes 0 3 ≡ (in_units bytes u, u))
        × (u ≤ 3)
        × ((i : ℕ) → i < u → is_large (in_units bytes i) ≡ true)
        × (u < 3 → is_large (in_units bytes u) ≡ false)
  scale_least bytes =
      let (u, e, few, above, below) = scale_lem 3 bytes 0 in
      (u, ground (arith, e), few, above, below)
