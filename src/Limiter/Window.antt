-- ===== src/Limiter/Window.antt =====
-- limiter.rs against the whole history of failures.
use file_send.HashMap.{get}
use file_send.Prelude.{
  ltb, length, retain, retain-append, nat_key, text_key, ℕ, ◌≤◌, ◌≡◌, refl, sym, ap, ◌∙◌, subst,
  ◌≡⟨◌⟩◌, ◌∎, ite, List, [], ◌∷◌, ◌++◌, append_assoc, append-nil, arith,
}
use file_send.Limiter.{IpAddr, ip_key, JoinLimiter, new, recent, allowed, record_failure}
use file_send.Limiter.Recorded.{
  recorded, recorded-prune, window-prune, recorded-record_failure, verdict-recorded,
}

-- A call of the limiter, with its address and its clock.
pub data Call : Type 0 where
  checks : IpAddr → ℕ → Call
  fails : IpAddr → ℕ → Call

abbrev pub time : Call → ℕ
time (checks ip t) = t
time (fails ip t) = t

unfoldable pub call : JoinLimiter → Call → JoinLimiter
call l (checks ip t) = (allowed l ip t).0
call l (fails ip t) = record_failure l ip t

unfoldable pub run : JoinLimiter → List Call → JoinLimiter
unfolding call
run l [] = l
run l (c ∷ cs) = run (call l c) cs

-- The times of an address's failures in a list of calls.
unfoldable pub times : IpAddr → List Call → List ℕ
times ip [] = []
times ip (checks j t ∷ cs) = times ip cs
times ip (fails j t ∷ cs) = ite (ip_key.same j ip) (t ∷ times ip cs) (times ip cs)

-- The clock does not run backwards, from `t` to the last call at or before `u`.
abbrev pub Ascending : ℕ → List Call → ℕ → Type 0
Ascending t [] u = t ≤ u
Ascending t (c ∷ cs) u = (t ≤ time c) × Ascending (time c) cs u

-- What is outside an earlier window is outside a later one.
retain-retain-recent :
    (w t u : ℕ) (xs : List ℕ)
    → t ≤ u
    → retain (recent w u) (retain (recent w t) xs) ≡ retain (recent w u) xs
unfolding retain
retain-retain-recent w t u [] h = refl
retain-retain-recent w t u (x ∷ xs) h = ground (arith, retain-retain-recent w t u xs h)

-- `xs` and `ys` show the same timestamps in every window that ends at `t` or later.
abbrev SameFrom : ℕ → ℕ → List ℕ → List ℕ → Type 0
SameFrom w t xs ys = (u : ℕ) → t ≤ u → retain (recent w u) xs ≡ retain (recent w u) ys

call-recorded :
    (l : JoinLimiter) (c : Call) (ip : IpAddr)
    → SameFrom l.window_ms (time c) (recorded (call l c) ip) (recorded l ip ++ times ip (c ∷ []))
unfolding call times allowed
call-recorded l (checks j t) ip u h = ground (
  arith,
  recorded-prune l j ip t,
  append-nil (recorded l ip),
  retain-retain-recent l.window_ms t u (recorded l ip) h,
)
call-recorded l (fails j t) ip u h = ground (
  arith,
  recorded-record_failure l j t ip,
  append-nil (recorded l ip),
  retain-append (recent l.window_ms u) (retain (recent l.window_ms t) (recorded l ip)) (t ∷ []),
  retain-append (recent l.window_ms u) (recorded l ip) (t ∷ []),
  retain-retain-recent l.window_ms t u (recorded l ip) h,
)

call-window :
    (l : JoinLimiter) (c : Call)
    → ((call l c).window_ms ≡ l.window_ms) × ((call l c).max_failures ≡ l.max_failures)
unfolding call allowed record_failure
call-window l (checks j t) = window-prune l j j t
call-window l (fails j t) = window-prune l j j t

times-cons :
    (ip : IpAddr) (c : Call) (cs : List Call) → times ip (c ∷ cs) ≡ times ip (c ∷ []) ++ times ip cs
unfolding times
times-cons ip (checks j t) cs = refl
times-cons ip (fails j t) cs = ground arith

Ascending-le : (t u : ℕ) (cs : List Call) → Ascending t cs u → t ≤ u
Ascending-le t u [] h = h
Ascending-le t u (c ∷ cs) h = omega (arith, Ascending-le (time c) u cs h.1)

run-recorded :
    (w t u : ℕ) (l : JoinLimiter) (cs : List Call) (ip : IpAddr)
    → l.window_ms ≡ w
    → Ascending t cs u
    → SameFrom w u (recorded (run l cs) ip) (recorded l ip ++ times ip cs)
unfolding run times
run-recorded w t u l [] ip e h v le = rw (append-nil (recorded l ip)) refl
run-recorded w t u l (c ∷ cs) ip e h v le =
    let next = run-recorded w (time c) u (call l c) cs ip ((call-window l c).0 ∙ e) h.1 v le in
    let one =
      subst
        (λ (k : ℕ).
          SameFrom k (time c) (recorded (call l c) ip) (recorded l ip ++ times ip (c ∷ [])))
        e (call-recorded l c ip) v (omega (arith, Ascending-le (time c) u cs h.1)) in
    retain (recent w v) (recorded (run (call l c) cs) ip)
    ≡⟨ next ⟩ retain (recent w v) (recorded (call l c) ip ++ times ip cs)
    ≡⟨ retain-append (recent w v) (recorded (call l c) ip) (times ip cs) ⟩
      retain (recent w v) (recorded (call l c) ip) ++ retain (recent w v) (times ip cs)
    ≡⟨ ap (λ (xs : List ℕ). xs ++ retain (recent w v) (times ip cs)) one ⟩
      retain (recent w v) (recorded l ip ++ times ip (c ∷ [])) ++ retain (recent w v) (times ip cs)
    ≡⟨ sym (retain-append (recent w v) (recorded l ip ++ times ip (c ∷ [])) (times ip cs)) ⟩
      retain (recent w v) ((recorded l ip ++ times ip (c ∷ [])) ++ times ip cs)
    ≡⟨ ap (retain (recent w v)) (
        append_assoc (recorded l ip) (times ip (c ∷ [])) (times ip cs)
        ∙ ap (◌++◌ (recorded l ip)) (sym (times-cons ip c cs))) ⟩
      retain (recent w v) (recorded l ip ++ times ip (c ∷ cs)) ∎

run-window :
    (l : JoinLimiter) (cs : List Call)
    → ((run l cs).window_ms ≡ l.window_ms) × ((run l cs).max_failures ≡ l.max_failures)
unfolding run
run-window l [] = (refl, refl)
run-window l (c ∷ cs) = (
  (run-window (call l c) cs).0 ∙ (call-window l c).0,
  (run-window (call l c) cs).1 ∙ (call-window l c).1,
)

-- On a clock that does not run backwards, the verdict at time `u` after any calls on a new limiter
-- is whether fewer than `m` of the failures recorded for the address so far lie within the last `w`
-- milliseconds. Checks, failures of other addresses, and what was pruned make no difference.
pub allowed_counts_window :
    (w m u : ℕ) (cs : List Call) (ip : IpAddr)
    → Ascending 0 cs u
    → (allowed (run (new w m) cs) ip u).1 ≡ ltb (length (retain (recent w u) (times ip cs))) m
unfolding new recorded get
allowed_counts_window w m u cs ip h =
    let l = run (new w m) cs in
    rw (verdict-recorded l ip u, (run-window (new w m) cs).0, (run-window (new w m) cs).1)
      (ap (λ (xs : List ℕ). ltb (length xs) m)
        (run-recorded w 0 u (new w m) cs ip refl h u (omega arith)))
