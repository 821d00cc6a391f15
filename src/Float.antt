-- ===== src/Float.antt =====
-- What the code does with a JavaScript number that is not a whole one: the operations behind the
-- dollar reference and the rates that are shown. The language gives them; the model takes them as they come.
use splite_backend.Prelude.{Bool, ℤ}
use splite_backend.Text.{Text}

pub record Floats : Type 1 where
  pub Number : Type 0
  -- `Number(text)`
  pub of_text : Text → Number
  pub of_integer : ℤ → Number
  pub divide : Number → Number → Number
  pub is_finite : Number → Bool
  -- `x <= 0`
  pub le_zero : Number → Bool
  -- `x.toFixed(2)`
  pub to_fixed_2 : Number → Text
  -- `x.toFixed(8)`
  pub to_fixed_8 : Number → Text
