-- ===== src/Pmm/MemoryMap/Plain.antt =====
-- The arrays of the plain emitter, and a printf library with one text, for the tests of what logs.
use mirus.Base.{ℕ, arith, List, [], ◌∷◌}
use mirus.Base.Format.{Arg}
use mirus.Logger.Plain.{plain_jems}
use mirus.Pmm.MemoryMap.{Arrays}
use mirus.Pmm.MemoryMap.Clean.{PrintsArrays}
use Prim.Native.String.{String}

abbrev pub value_arrays : Arrays plain_jems
value_arrays = record {
  array_close = λ s. (b']' ∷ [], s);
  key_array_open = λ key s. (b'[' ∷ [], s);
  key_integer = λ key value s. (key, s);
}

pub value_arrays-PrintsArrays : PrintsArrays plain_jems value_arrays
value_arrays-PrintsArrays = record {
  array_close = λ s. omega arith;
  key_array_open = λ key s k. omega arith;
  key_integer = λ key value s k. k;
}

-- every text is "n"
abbrev pub one_letter : String → List Arg → ℕ → List ℕ
one_letter format args size = b'n' ∷ []
