-- ===== src/Streams/Places.antt =====
-- A file of the sender in transfer_state.rs is in one place: offered, waiting or active.
use file_send.HashMap.Laws.{get-insert, get-remove}
use file_send.Prelude.{
  ltb, ◌==◌, if◌then◌else◌, Bool-cases, Option-cases, length, retain, contains, others, nat_key,
  text_key, ℕ, ◌+◌, ◌≤◌, ◌<◌, ◌≡◌, refl, sym, ap, ◌∙◌, subst, inl, inr, ite, if_pos, if_neg, Bool,
  true, false, not, Option, none, some, List, [], ◌∷◌, ◌++◌, arith,
}
use file_send.HashMap.{HashMap, get, insert, remove}
use file_send.Streams.{
  set_insert, Outgoing, enqueue_accepted, schedule_loop, schedule, cancel_outgoing,
}
use file_send.Streams.Schedule.{ids_of}

unfoldable pub count : List ℕ → ℕ → ℕ
count [] j = 0
count (x ∷ xs) j = if x == j then 1 + count xs j else count xs j

pub count-append : (xs ys : List ℕ) (j : ℕ) → count (xs ++ ys) j ≡ count xs j + count ys j
unfolding count
count-append [] ys j = omega arith
count-append (x ∷ xs) ys j = ground (arith, count-append xs ys j)

pub count-others :
    (xs : List ℕ) (i j : ℕ) → count (retain (others i) xs) j ≡ (if i == j then 0 else count xs j)
unfolding count retain
count-others [] i j = ground arith
count-others (x ∷ xs) i j = ground (arith, count-others xs i j)

count-absent : (xs : List ℕ) (j : ℕ) → contains xs j ≡ false → count xs j ≡ 0
unfolding count contains
count-absent [] j h = refl
count-absent (x ∷ xs) j h = ground (arith, count-absent xs j)

count-present : (xs : List ℕ) (j : ℕ) → contains xs j ≡ true → 0 < count xs j
unfolding count contains
count-present [] j h = ground arith
count-present (x ∷ xs) j h = ground (arith, count-present xs j)

count-set_insert :
    (s : List ℕ) (i j : ℕ) → contains s i ≡ false → count (set_insert s i) j ≡ count (i ∷ s) j
unfolding set_insert
count-set_insert s i j h = rw (h) refl

ids_of-append : {P : Type 0} (xs ys : List (ℕ × P)) → ids_of (xs ++ ys) ≡ ids_of xs ++ ids_of ys
unfolding ids_of
ids_of-append [] ys = refl
ids_of-append (x ∷ xs) ys = ap (x.0 ∷◌) (ids_of-append xs ys)

ids_of-retain :
    {P : Type 0} (xs : List (ℕ × P)) (i : ℕ)
    → ids_of (retain (λ e. not (e.0 == i)) xs) ≡ retain (others i) (ids_of xs)
unfolding ids_of retain
ids_of-retain [] i = refl
ids_of-retain (x ∷ xs) i = elim (Bool-cases (x.0 == i)) [
  | inl e ↦ rw (e) (ids_of-retain xs i)
  | inr e ↦ rw (e) (ap (x.0 ∷◌) (ids_of-retain xs i))
]

pub ite-same :
    {A : Type 0} (i j : ℕ) (x y : A) → ite (nat_key.same i j) x y ≡ (if i == j then x else y)
ite-same i j x y = elim (nat_key.same i j) [
  | yes e ↦ if_pos (nat_key.same i j) e x y ∙ ground (arith, e)
  | no n ↦ if_neg (nat_key.same i j) n x y ∙ ground (arith, n)
]

abbrev pub one_if : {P : Type 0} → Option P → ℕ
one_if none = 0
one_if (some p) = 1

module _ {P : Type 0} where
  -- In how many places a file is.
  unfoldable pub places : Outgoing P → ℕ → ℕ
  places out j = count out.active j + count (ids_of out.queue) j + one_if (get out.offered j)

  pub one_if-remove :
      (m : HashMap ℕ P) (i j : ℕ)
      → one_if (get (remove m i) j) ≡ (if i == j then 0 else one_if (get m j))
  one_if-remove m i j = ap one_if (get-remove m i j ∙ ite-same i j none (get m j)) ∙ inner (i == j)
    where
      inner :
          (b : Bool) → one_if (if b then none else get m j) ≡ (if b then 0 else one_if (get m j))
      inner true = refl
      inner false = refl

  pub one_if-insert :
      (m : HashMap ℕ P) (i j : ℕ) (file : P)
      → one_if (get (insert m i file) j) ≡ (if i == j then 1 else one_if (get m j))
  one_if-insert m i j file =
      ap one_if (get-insert m i j file ∙ ite-same i j (some file) (get m j)) ∙ inner (i == j)
    where
      inner :
          (b : Bool)
          → one_if (if b then some file else get m j) ≡ (if b then 1 else one_if (get m j))
      inner true = refl
      inner false = refl

  count_push :
      (queue : List (ℕ × P)) (i : ℕ) (file : P) (j : ℕ)
      → count (ids_of (queue ++ (i, file) ∷ [])) j
        ≡ count (ids_of queue) j + (if i == j then 1 else 0)
  unfolding count ids_of
  count_push queue i file j =
      ap (λ ids. count ids j) (ids_of-append queue ((i, file) ∷ []))
      ∙ count-append (ids_of queue) (i ∷ []) j

  one_if-same :
      (m : HashMap ℕ P) (i j : ℕ) (file : P)
      → get m i ≡ some file
      → (i == j) ≡ true
      → one_if (get m j) ≡ 1
  one_if-same m i j file e h = subst (λ k. one_if (get m k) ≡ 1) (ground arith) (ap one_if e)

  -- Accepting a file moves it from the offered ones to the queue: nothing is lost or doubled.
  pub enqueue_accepted-places :
      (out : Outgoing P) (i j : ℕ) → places (enqueue_accepted out i) j ≡ places out j
  unfolding places enqueue_accepted
  enqueue_accepted-places out i j = elim (Option-cases (get out.offered i)) [
    | inl e ↦ rw (e, enqueue_accepted) refl
    | inr (file, e) ↦
        rw (e, enqueue_accepted)
          (ground (
            arith,
            count_push out.queue i file j,
            one_if-remove out.offered i j,
            one_if-same out.offered i j file e,
          ))
  ]

  shift :
      (active : List ℕ) (id : ℕ) (file : P) (queue : List (ℕ × P)) (j : ℕ)
      → contains active id ≡ false
      → count (set_insert active id) j + count (ids_of queue) j
        ≡ count active j + count (ids_of ((id, file) ∷ queue)) j
  unfolding count ids_of
  shift active id file queue j new = ground (arith, count-set_insert active id j new)

  not_active :
      (active : List ℕ) (id : ℕ) (file : P) (queue : List (ℕ × P))
      → count active id + count (ids_of ((id, file) ∷ queue)) id ≤ 1
      → contains active id ≡ false
  unfolding count ids_of
  not_active active id file queue once = elim (Bool-cases (contains active id)) [
    | inl e ↦ absurd (ground (arith, count-present active id e))
    | inr e ↦ e
  ]

  loop-places :
      (active : List ℕ) (queue : List (ℕ × P)) (max : ℕ)
      → ((j : ℕ) → count active j + count (ids_of queue) j ≤ 1)
      → (j : ℕ)
      → let (after, waiting, started) = schedule_loop active queue max in
        count after j + count (ids_of waiting) j ≡ count active j + count (ids_of queue) j
  unfolding schedule_loop
  loop-places active [] max once j = refl
  loop-places active ((id, file) ∷ queue) max once j = elim (Bool-cases (ltb (length active) max)) [
    | inl e ↦
        rw (e, schedule_loop)
          (let new = not_active active id file queue (once id) in
            loop-places (set_insert active id) queue max
              (λ k. subst (λ n. n ≤ 1) (sym (shift active id file queue k new)) (once k)) j
            ∙ shift active id file queue j new)
    | inr e ↦ rw (e, schedule_loop) refl
  ]

  -- `schedule` moves files from the queue to the active ones, and neither loses nor doubles one.
  pub schedule-places :
      (out : Outgoing P) (max : ℕ)
      → ((j : ℕ) → places out j ≤ 1)
      → (j : ℕ) → places (schedule out max).0 j ≡ places out j
  unfolding places schedule
  schedule-places out max once j =
      ap (λ n. n + one_if (get out.offered j))
        (loop-places out.active out.queue max (λ k. ground (arith, once k)) j)

  -- A cancelled file waits nowhere; it is only where it streams.
  pub cancel_outgoing-places :
      (out : Outgoing P) (i j : ℕ)
      → places (cancel_outgoing out i) j ≡ (if i == j then count out.active j else places out j)
  unfolding places cancel_outgoing
  cancel_outgoing-places out i j = ground (
    arith,
    one_if-remove out.offered i j,
    ap (λ ids. count ids j) (ids_of-retain out.queue i),
    count-others (ids_of out.queue) i j,
  )
