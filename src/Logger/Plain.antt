-- ===== src/Logger/Plain.antt =====
-- An emitter that prints brackets, keys and values in a row, for the tests of what logs.
use mirus.Base.{ℕ, arith, [], ◌∷◌, ◌++◌}
use mirus.Logger.{Jems}
use mirus.Logger.Text.{NoNul-append}
use mirus.Logger.Message.{PrintsText}

abbrev pub plain_jems : Jems
plain_jems = record {
  State = ℕ;
  init = λ max_level. max_level;
  object_open = λ s. (b'{' ∷ [], s);
  object_close = λ s. (b'}' ∷ [], s);
  key_string = λ key value s. (key ++ value, s);
  key_literal = λ key literal n_bytes s. (key, s);
}

pub plain_jems-PrintsText : PrintsText plain_jems
plain_jems-PrintsText = record {
  object_open = λ s. omega arith;
  object_close = λ s. omega arith;
  key_string = λ key value s k v. NoNul-append key value k v;
  key_literal = λ key s k. k;
}
