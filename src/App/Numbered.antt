-- ===== src/App/Numbered.antt =====
-- The ids of the files that the page of app.rs adds.
use file_send.Prelude.{
  Bool-cases, length, retain, All, All-append, Text, nat_key, text_key, ℕ, ◌+◌, ◌%◌, ◌^◌, ◌≤◌, ◌<◌,
  ◌≡◌, refl, sym, ap, ◌∙◌, subst, inl, inr, Bool, false, List, [], ◌∷◌, map, arith,
}
use file_send.Float.{F64}
use file_send.Rows.{Row, matches, modify, upsert, push_outgoing_pending}
use file_send.Rows.Lookup.{Keeps}
use file_send.Rows.Keyed.{has, IsKeyed, append-IsKeyed}
use file_send.Transfer.{File}
use file_send.App.{add_files}

module _ {F : Type 0} where
  -- The outgoing rows have ids below a number.
  unfoldable pub AreBelow : ℕ → List (Row F) → Type 0
  AreBelow n list = All (λ r. r.incoming ≡ false → r.id < n) list

  pub All-weaken : (n m : ℕ) (list : List (Row F)) → n ≤ m → AreBelow n list → AreBelow m list
  unfolding AreBelow
  All-weaken n m [] le h = tt
  All-weaken n m (r ∷ rs) le h = ((λ out. omega (arith, h.0 out)), All-weaken n m rs le h.1)

  below_Keeps :
      (n : ℕ) (change : Row F → Row F) (r : Row F)
      → Keeps change
      → (r.incoming ≡ false → r.id < n)
      → (change r).incoming ≡ false
      → (change r).id < n
  below_Keeps n change r keeps h out =
      subst (λ k. k < n) (sym (keeps r).0) (h (sym (keeps r).1 ∙ out))

  pub modify-AreBelow :
      (n : ℕ) (list : List (Row F)) (i : ℕ) (b : Bool) (change : Row F → Row F)
      → Keeps change
      → AreBelow n list
      → AreBelow n (modify list i b change)
  unfolding AreBelow modify
  modify-AreBelow n [] i b change keeps h = tt
  modify-AreBelow n (r ∷ rs) i b change keeps h = elim (Bool-cases (matches i b r)) [
    | inl e ↦ rw (e) (below_Keeps n change r keeps h.0, h.1)
    | inr e ↦ rw (e) (h.0, modify-AreBelow n rs i b change keeps h.1)
  ]

  pub upsert-AreBelow :
      (n : ℕ) (list : List (Row F)) (i : ℕ) (b : Bool) (make : Row F) (change : Row F → Row F)
      → Keeps change
      → (make.incoming ≡ false → make.id < n)
      → AreBelow n list
      → AreBelow n (upsert list i b make change)
  unfolding AreBelow upsert
  upsert-AreBelow n [] i b make change keeps made h = (below_Keeps n change make keeps made, tt)
  upsert-AreBelow n (r ∷ rs) i b make change keeps made h = elim (Bool-cases (matches i b r)) [
    | inl e ↦ rw (e) (below_Keeps n change r keeps h.0, h.1)
    | inr e ↦ rw (e) (h.0, upsert-AreBelow n rs i b make change keeps made h.1)
  ]

  pub map-AreBelow :
      (n : ℕ) (list : List (Row F)) (change : Row F → Row F)
      → Keeps change
      → AreBelow n list
      → AreBelow n (map change list)
  unfolding AreBelow
  map-AreBelow n [] change keeps h = tt
  map-AreBelow n (r ∷ rs) change keeps h =
      (below_Keeps n change r keeps h.0, map-AreBelow n rs change keeps h.1)

  pub retain-AreBelow :
      (n : ℕ) (p : Row F → Bool) (list : List (Row F))
      → AreBelow n list
      → AreBelow n (retain p list)
  unfolding AreBelow retain
  retain-AreBelow n p [] h = tt
  retain-AreBelow n p (r ∷ rs) h = elim (Bool-cases (p r)) [
    | inl e ↦ rw (e) (h.0, retain-AreBelow n p rs h.1)
    | inr e ↦ rw (e) (retain-AreBelow n p rs h.1)
  ]

  -- A number that no outgoing row has reached is a new id.
  below_new : (n : ℕ) (list : List (Row F)) → AreBelow n list → has list n false ≡ false
  unfolding AreBelow has
  below_new n [] h = refl
  below_new n (r ∷ rs) h = ground (arith, below_new n rs h.1, h.0)

module _ {F : Type 0} ⦃f64 : F64 F⦄ where
  -- The rows of a page whose files have the numbers below `n`.
  unfoldable pub IsNumbered : ℕ → List (Row F) → Type 0
  IsNumbered n list = AreBelow n list × IsKeyed list

  push-AreBelow :
      (n : ℕ) (list : List (Row F)) (name : Text) (size : F)
      → AreBelow n list
      → AreBelow (n + 1) (push_outgoing_pending list n name size)
  unfolding AreBelow push_outgoing_pending
  push-AreBelow n list name size h =
      All-append _ list _ (All-weaken n (n + 1) list (omega arith) h) ((λ out. omega arith), tt)

  -- Adding files numbers them from the page's `next_id`, each with a row of its own.
  pub add_files-IsNumbered :
      (files : List (File F)) (next : ℕ) (list : List (Row F))
      → next + length files < 2 ^ 64
      → IsNumbered next list
      → let (after, rows, batch) = add_files next list files in
        IsNumbered after rows × (after ≡ next + length files) × (map (λ e. e.1) batch ≡ files)
  unfolding add_files IsNumbered push_outgoing_pending
  add_files-IsNumbered [] next list word numbered = (numbered, omega arith, refl)
  add_files-IsNumbered (file ∷ files) next list word (below, keyed) =
      let wrap : (next + 1) % 2 ^ 64 ≡ next + 1 = omega arith in
      let (numbered, count, all) =
        add_files-IsNumbered files (next + 1) (push_outgoing_pending list next file.name file.size)
          (omega arith)
          (
            push-AreBelow next list file.name file.size below,
            append-IsKeyed list _ (below_new next list below) keyed,
          ) in
      rw (wrap) (numbered, omega (arith, count), ap (file ∷◌) all)
