-- ===== src/Limiter/Recorded.antt =====
-- The timestamps that limiter.rs holds for an address, after each operation.
use file_send.Prelude.{
  ltb, Option-cases, length, retain, nat_key, text_key, ℕ, ◌≡◌, ◌∙◌, inl, inr, ite, none, some,
  List, [], ◌∷◌, ◌++◌, arith,
}
use file_send.HashMap.{get, insert}
use file_send.HashMap.Laws.{get-insert, get-remove}
use file_send.Limiter.{
  IpAddr, ip_key, JoinLimiter, recent, prune_entry, prune, allowed, record_failure,
}

-- No entry is no timestamp.
unfoldable pub recorded : JoinLimiter → IpAddr → List ℕ
recorded l ip = elim (get l.failures ip) [ none ↦ [] | some v ↦ v ]

module _ (l : JoinLimiter) (ip j : IpAddr) (now : ℕ) where
  recorded-prune_entry :
      (v : List ℕ)
      → recorded (record l { failures = prune_entry l ip v }) j
        ≡ ite (ip_key.same ip j) v (recorded l j)
  unfolding prune_entry recorded
  recorded-prune_entry [] = ground (arith, get-remove l.failures ip j)
  recorded-prune_entry (t ∷ ts) = ground (arith, get-insert l.failures ip j (t ∷ ts))

  pub recorded-prune :
      recorded (prune l ip now) j
      ≡ ite (ip_key.same ip j) (retain (recent l.window_ms now) (recorded l j)) (recorded l j)
  unfolding prune recorded retain
  recorded-prune = elim (Option-cases (get l.failures ip)) [
    | inl e ↦ rw (e, prune) (ground arith)
    | inr (v, e) ↦
        rw (e, prune) (ground (arith, recorded-prune_entry (retain (recent l.window_ms now) v)))
  ]

  pub window-prune :
      ((prune l ip now).window_ms ≡ l.window_ms) × ((prune l ip now).max_failures ≡ l.max_failures)
  unfolding prune
  window-prune = ground arith

  recorded-push :
      recorded
        (record l {
          failures =
              insert l.failures ip
                (elim (get l.failures ip) [ none ↦ now ∷ [] | some v ↦ v ++ now ∷ [] ]);
        })
        j
      ≡ ite (ip_key.same ip j) (recorded l j ++ now ∷ []) (recorded l j)
  unfolding recorded
  recorded-push = elim (Option-cases (get l.failures ip)) [
    | inl e ↦ rw e (ground (arith, get-insert l.failures ip j (now ∷ [])))
    | inr (v, e) ↦ rw e (ground (arith, get-insert l.failures ip j (v ++ now ∷ [])))
  ]

module _ (l : JoinLimiter) (ip : IpAddr) (now : ℕ) where
  pub window-record_failure :
      ((record_failure l ip now).window_ms ≡ l.window_ms)
      × ((record_failure l ip now).max_failures ≡ l.max_failures)
  unfolding record_failure
  window-record_failure = window-prune l ip ip now

  length-recorded :
      (elim (get l.failures ip) [ none ↦ 0 | some v ↦ length v ]) ≡ length (recorded l ip)
  unfolding recorded
  length-recorded = ground arith

  pub recorded-record_failure :
      (j : IpAddr)
      → recorded (record_failure l ip now) j
        ≡ ite
            (ip_key.same ip j)
            (retain (recent l.window_ms now) (recorded l j) ++ now ∷ [])
            (recorded l j)
  unfolding record_failure
  recorded-record_failure j =
      recorded-push (prune l ip now) ip j now ∙ ground (arith, recorded-prune l ip j now)

pub verdict-recorded :
    (l : JoinLimiter) (ip : IpAddr) (now : ℕ)
    → (allowed l ip now).1
      ≡ ltb (length (retain (recent l.window_ms now) (recorded l ip))) l.max_failures
unfolding allowed
verdict-recorded l ip now =
    rw
      (
        length-recorded (prune l ip now) ip now,
        recorded-prune l ip ip now,
        (window-prune l ip ip now).1,
      )
      (ground arith)
