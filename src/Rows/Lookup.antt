-- ===== src/Rows/Lookup.antt =====
-- What the row of a key reads after each kind of change of rows.rs.
use file_send.Prelude.{
  ◌==◌, if◌then◌else◌, Bool-cases, retain, nat_key, text_key, ℕ, ◌≡◌, refl, sym, ap, ◌∙◌, inl, inr,
  Bool, true, false, ◌&&◌, Option, none, some, List, [], ◌∷◌, ◌++◌, map, arith,
}
use file_send.Rows.{TransferState, Row, same_side, matches, modify, upsert, decline}

abbrev pub map_state : (TransferState → TransferState) → Option TransferState → Option TransferState
map_state next none = none
map_state next (some s) = some (next s)

abbrev pub or_make :
    TransferState → (TransferState → TransferState) → Option TransferState → Option TransferState
or_make made next none = some (next made)
or_make made next (some s) = some (next s)

-- Whether two keys are the same.
abbrev pub same_key : ℕ → Bool → ℕ → Bool → Bool
same_key i b j c = i == j && same_side b c

pub same_key-sym : (i : ℕ) (b : Bool) (j : ℕ) (c : Bool) → same_key i b j c ≡ same_key j c i b
same_key-sym i true j true = ground arith
same_key-sym i true j false = ground arith
same_key-sym i false j true = ground arith
same_key-sym i false j false = ground arith

same_side_trans : (x b c : Bool) → same_side x b ≡ true → same_side x c ≡ same_side b c
same_side_trans true true c h = refl
same_side_trans true false c h = ground arith
same_side_trans false true c h = ground arith
same_side_trans false false c h = refl

-- One step of the induction below, at the row that is changed and at any other.
hit :
    (k : Bool) (s s' : TransferState) (o : Option TransferState)
    → (g : Option TransferState → Option TransferState) → g (some s) ≡ some s'
    → (if k then some s' else o)
      ≡ (if k then g (if k then some s else o) else (if k then some s else o))
hit true s s' o g e = sym e
hit false s s' o g e = refl

miss :
    (m k : Bool) (s : TransferState) (o o' : Option TransferState)
    → (g : Option TransferState → Option TransferState) → (m ≡ true → k ≡ false)
    → o' ≡ (if k then g o else o)
    → (if m then some s else o')
      ≡ (if k then g (if m then some s else o) else (if m then some s else o))
miss true true s o o' g apart e = absurd (ground (arith, apart refl))
miss true false s o o' g apart e = refl
miss false k s o o' g apart e = e

module _ {F : Type 0} where
  -- The state of the first row with a key.
  unfoldable pub state_of : List (Row F) → ℕ → Bool → Option TransferState
  state_of [] id incoming = none
  state_of (r ∷ rs) id incoming =
      if matches id incoming r then some r.state else state_of rs id incoming

  -- A change that leaves the key.
  abbrev pub Keeps : (Row F → Row F) → Type 0
  Keeps change = (r : Row F) → ((change r).id ≡ r.id) × ((change r).incoming ≡ r.incoming)

  abbrev pub Sets : (Row F → Row F) → (TransferState → TransferState) → Type 0
  Sets change next = (r : Row F) → (change r).state ≡ next r.state

  pub matches-same_key :
      (i : ℕ) (b : Bool) (j : ℕ) (c : Bool) (r : Row F)
      → matches i b r ≡ true
      → matches j c r ≡ same_key i b j c
  matches-same_key i b j c r h = ground (arith, same_side_trans r.incoming b c)

  pub matches-Keeps :
      (change : Row F → Row F) (j : ℕ) (c : Bool) (r : Row F)
      → Keeps change
      → matches j c (change r) ≡ matches j c r
  matches-Keeps change j c r keeps = ground (arith, (keeps r).0, (keeps r).1)

  pub matches-apart :
      (i : ℕ) (b : Bool) (j : ℕ) (c : Bool) (r : Row F)
      → matches i b r ≡ false
      → matches j c r ≡ true
      → same_key i b j c ≡ false
  matches-apart i b j c r h m = same_key-sym i b j c ∙ sym (matches-same_key j c i b r m) ∙ h

  pub state_of-modify :
      (list : List (Row F)) (i : ℕ) (b : Bool) (change : Row F → Row F)
      → (next : TransferState → TransferState) (j : ℕ) (c : Bool) → Keeps change
      → Sets change next
      → state_of (modify list i b change) j c
        ≡ (if same_key i b j c then map_state next (state_of list j c) else state_of list j c)
  unfolding state_of modify
  state_of-modify [] i b change next j c keeps sets = ground arith
  state_of-modify (r ∷ rs) i b change next j c keeps sets = elim (Bool-cases (matches i b r)) [
    | inl h ↦
        rw (h, matches-Keeps change j c r keeps, matches-same_key i b j c r h, sets r)
          (hit (same_key i b j c) r.state (next r.state) (state_of rs j c) (map_state next) refl)
    | inr h ↦ rw (h) (
        miss (matches j c r) (same_key i b j c) r.state (state_of rs j c)
          (state_of (modify rs i b change) j c) (map_state next) (matches-apart i b j c r h)
          (state_of-modify rs i b change next j c keeps sets))
  ]

  pub state_of-upsert :
      (list : List (Row F)) (i : ℕ) (b : Bool) (make : Row F) (change : Row F → Row F)
      → (next : TransferState → TransferState) (j : ℕ) (c : Bool) → matches i b make ≡ true
      → Keeps change
      → Sets change next
      → state_of (upsert list i b make change) j c ≡ (
          if same_key i b j c
          then or_make make.state next (state_of list j c)
          else state_of list j c)
  unfolding state_of upsert
  state_of-upsert [] i b make change next j c made keeps sets =
      rw (matches-Keeps change j c make keeps, matches-same_key i b j c make made, sets make) refl
  state_of-upsert (r ∷ rs) i b make change next j c made keeps sets =
      elim (Bool-cases (matches i b r)) [
        | inl h ↦
            rw (h, matches-Keeps change j c r keeps, matches-same_key i b j c r h, sets r)
              (hit (same_key i b j c) r.state (next r.state) (state_of rs j c)
                (or_make make.state next) refl)
        | inr h ↦ rw (h) (
            miss (matches j c r) (same_key i b j c) r.state (state_of rs j c)
              (state_of (upsert rs i b make change) j c) (or_make make.state next)
              (matches-apart i b j c r h)
              (state_of-upsert rs i b make change next j c made keeps sets))
      ]

  -- A change that a test on the key and the state of each row decides.
  pub state_of-map :
      (list : List (Row F)) (change : Row F → Row F)
      → (next : TransferState → TransferState) (j : ℕ) (c : Bool) → Keeps change
      → ((r : Row F) → matches j c r ≡ true → (change r).state ≡ next r.state)
      → state_of (map change list) j c ≡ map_state next (state_of list j c)
  unfolding state_of
  state_of-map [] change next j c keeps sets = refl
  state_of-map (r ∷ rs) change next j c keeps sets = elim (Bool-cases (matches j c r)) [
    | inl h ↦ rw (matches-Keeps change j c r keeps, h) (ap some (sets r h))
    | inr h ↦ rw (matches-Keeps change j c r keeps, h) (state_of-map rs change next j c keeps sets)
  ]

  pub state_of-append :
      (list : List (Row F)) (r : Row F) (j : ℕ) (c : Bool)
      → state_of (list ++ r ∷ []) j c ≡ elim (state_of list j c) [
        | some s ↦ some s
        | none ↦ if matches j c r then some r.state else none
      ]
  unfolding state_of
  state_of-append [] r j c = refl
  state_of-append (q ∷ qs) r j c = elim (Bool-cases (matches j c q)) [
    | inl h ↦ rw (h) refl
    | inr h ↦ rw (h) (state_of-append qs r j c)
  ]

  pub state_of-decline :
      (list : List (Row F)) (i j : ℕ) (c : Bool)
      → state_of (decline list i) j c ≡ (if same_key i true j c then none else state_of list j c)
  unfolding state_of decline retain
  state_of-decline [] i j c = ground arith
  state_of-decline (r ∷ rs) i j c =
      ground (
        arith,
        state_of-decline rs i j c,
        matches-same_key i true j c r,
        matches-apart i true j c r,
      )
