-- ===== src/Streams/Schedule.antt =====
-- What `schedule` of transfer_state.rs starts.
use file_send.Prelude.{
  ltb, ◌==◌, Bool-cases, length, contains, nat_key, text_key, ℕ, ◌+◌, ◌≤◌, ◌≡◌, refl, ap, subst,
  ◌⊎◌, inl, inr, true, ◌||◌, List, [], ◌∷◌, ◌++◌, map, arith,
}
use file_send.Streams.{set_insert, Outgoing, schedule_loop, schedule}

unfoldable pub ids_of : {P : Type 0} → List (ℕ × P) → List ℕ
ids_of entries = map (λ e. e.0) entries

pub length-set_insert-le : (s : List ℕ) (id : ℕ) → length (set_insert s id) ≤ length s + 1
unfolding set_insert
length-set_insert-le s id = ground arith

contains-same : (s : List ℕ) (i j : ℕ) → (i == j) ≡ true → contains s i ≡ true → contains s j ≡ true
contains-same s i j e h = subst (λ k. contains s k ≡ true) (ground arith) h

pub contains-set_insert :
    (s : List ℕ) (id j : ℕ) → contains (set_insert s id) j ≡ contains s j || (id == j)
unfolding set_insert contains
contains-set_insert s id j = elim (Bool-cases (contains s id)) [
  | inl e ↦ rw (e) (ground (arith, contains-same s id j))
  | inr e ↦ rw (e) (ground arith)
]

module _ {P : Type 0} where
  loop_fifo :
      (active : List ℕ) (queue : List (ℕ × P)) (max : ℕ)
      → let (after, waiting, started) = schedule_loop active queue max in started ++ waiting ≡ queue
  unfolding schedule_loop
  loop_fifo active [] max = refl
  loop_fifo active ((id, file) ∷ queue) max = elim (Bool-cases (ltb (length active) max)) [
    | inl e ↦
        rw (e, schedule_loop) (ap ((id, file) ∷◌) (loop_fifo (set_insert active id) queue max))
    | inr e ↦ rw (e, schedule_loop) refl
  ]

  loop_cap :
      (active : List ℕ) (queue : List (ℕ × P)) (max : ℕ)
      → length active ≤ max
      → length (schedule_loop active queue max).0 ≤ max
  unfolding schedule_loop
  loop_cap active [] max le = le
  loop_cap active ((id, file) ∷ queue) max le = elim (Bool-cases (ltb (length active) max)) [
    | inl e ↦
        rw (e, schedule_loop)
          (loop_cap (set_insert active id) queue max
            (ground (arith, length-set_insert-le active id)))
    | inr e ↦ rw (e, schedule_loop) le
  ]

  loop_full :
      (active : List ℕ) (queue : List (ℕ × P)) (max : ℕ)
      → let (after, waiting, started) = schedule_loop active queue max in
        (waiting ≡ []) ⊎ (max ≤ length after)
  unfolding schedule_loop
  loop_full active [] max = inl refl
  loop_full active ((id, file) ∷ queue) max = elim (Bool-cases (ltb (length active) max)) [
    | inl e ↦ rw (e, schedule_loop) (loop_full (set_insert active id) queue max)
    | inr e ↦ rw (e, schedule_loop) (inr (ground arith))
  ]

  loop_contains :
      (active : List ℕ) (queue : List (ℕ × P)) (max j : ℕ)
      → let (after, waiting, started) = schedule_loop active queue max in
        contains after j ≡ contains active j || contains (ids_of started) j
  unfolding schedule_loop ids_of contains
  loop_contains active [] max j = ground arith
  loop_contains active ((id, file) ∷ queue) max j = elim (Bool-cases (ltb (length active) max)) [
    | inl e ↦
        rw (e, schedule_loop)
          (ground (
            arith,
            loop_contains (set_insert active id) queue max j,
            contains-set_insert active id j,
          ))
    | inr e ↦ rw (e, schedule_loop) (ground arith)
  ]

  -- `schedule` starts the files at the front of the queue, in order, and leaves the rest; it never
  -- has more than `max` streams where there were at most `max`, and it leaves a file waiting only
  -- where all `max` slots are taken. What it starts is active, and nothing else becomes so.
  pub schedule_fills :
      (out : Outgoing P) (max j : ℕ)
      → length out.active ≤ max
      → let (after, started) = schedule out max in
        (started ++ after.queue ≡ out.queue)
        × (length after.active ≤ max)
        × ((after.queue ≡ []) ⊎ (length after.active ≡ max))
        × (contains after.active j ≡ contains out.active j || contains (ids_of started) j)
  unfolding schedule
  schedule_fills out max j le =
      let cap = loop_cap out.active out.queue max le in
      (
        loop_fifo out.active out.queue max,
        cap,
        elim (loop_full out.active out.queue max) [ inl e ↦ inl e | inr full ↦ inr (omega arith) ],
        loop_contains out.active out.queue max j,
      )
