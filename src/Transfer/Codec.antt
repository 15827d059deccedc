-- ===== src/Transfer/Codec.antt =====
-- A concrete `f64` and a concrete format of the control frames, for the runs of the examples.
use file_send.Prelude.{
  ltb, leb, ◌==◌, length, take, drop, take-append, drop-append, Text, nat_key, text_key, ℕ, zero,
  suc, ◌+◌, ◌-◌, ◌/◌, ◌≡◌, refl, ap, Option, none, some, [], ◌∷◌, ◌++◌,
}
use file_send.Float.{F64}
use file_send.Wire.{Json}
use file_send.Protocol.{FileStart, Control}

-- Whole numbers in place of `f64`.
instance abbrev pub whole : F64 ℕ
whole = record {
  of_nat = λ n. n;
  to_nat = λ n. n;
  add = λ a b. a + b;
  sub = λ a b. a - b;
  div = λ a b. a / b;
  lt = ltb;
  le = leb;
  eq = λ a b. a == b;
}

-- A format for the control frames: a tag, the numbers, and the texts with the first one's length.
print_meta : ℕ → FileStart ℕ → Text
print_meta tag m = tag ∷ m.id ∷ m.size ∷ length m.name ∷ (m.name ++ m.mime)

pub print : Control ℕ → Text
print (Control.offer m) = print_meta 0 m
print (Control.start m) = print_meta 1 m
print (Control.accept id) = 2 ∷ id ∷ []
print (Control.reject id) = 3 ∷ id ∷ []
print (Control.end_frame e) = 4 ∷ e.id ∷ []
print (Control.cancel id) = 5 ∷ id ∷ []
print (Control.abort id) = 6 ∷ id ∷ []

meta_read : ℕ → ℕ → ℕ → Text → FileStart ℕ
meta_read id size n rest = record { id = id; name = take n rest; size = size; mime = drop n rest }

pub parse : Text → Option (Control ℕ)
parse (zero ∷ id ∷ size ∷ n ∷ rest) = some (Control.offer (meta_read id size n rest))
parse ((suc zero) ∷ id ∷ size ∷ n ∷ rest) = some (Control.start (meta_read id size n rest))
parse ((suc (suc zero)) ∷ id ∷ rest) = some (Control.accept id)
parse ((suc (suc (suc zero))) ∷ id ∷ rest) = some (Control.reject id)
parse ((suc (suc (suc (suc zero)))) ∷ id ∷ rest) = some (Control.end_frame (record { id = id }))
parse ((suc (suc (suc (suc (suc zero))))) ∷ id ∷ rest) = some (Control.cancel id)
parse ((suc (suc (suc (suc (suc (suc zero)))))) ∷ id ∷ rest) = some (Control.abort id)
parse _ = none

meta_back : (m : FileStart ℕ) → meta_read m.id m.size (length m.name) (m.name ++ m.mime) ≡ m
unfolding meta_read
meta_back m = λ i. record {
  id = m.id;
  name = take-append m.name m.mime i;
  size = m.size;
  mime = drop-append m.name m.mime i;
}

pub reads : (c : Control ℕ) → parse (print c) ≡ some c
unfolding parse print print_meta
reads (Control.offer m) = ap (λ q. some (Control.offer q)) (meta_back m)
reads (Control.start m) = ap (λ q. some (Control.start q)) (meta_back m)
reads (Control.accept id) = refl
reads (Control.reject id) = refl
reads (Control.end_frame e) = refl
reads (Control.cancel id) = refl
reads (Control.abort id) = refl

abbrev pub codec : Json (Control ℕ)
codec = record { to_string = print; from_str = parse; reads_back = reads }
