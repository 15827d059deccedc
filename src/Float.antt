-- ===== src/Float.antt =====
-- `f64`, which the program takes from its platform: the operations that the client uses, with no
-- law of their own. A theorem that needs one names it.
use file_send.Prelude.{nat_key, text_key, ℕ, Bool}

pub record F64 (F : Type 0) : Type 0 where
  pub of_nat : ℕ → F
  pub to_nat : F → ℕ
  pub add : F → F → F
  pub sub : F → F → F
  pub div : F → F → F
  pub lt : F → F → Bool
  pub le : F → F → Bool
  pub eq : F → F → Bool
