-- ===== src/Base/Format.antt =====
-- Texts of C and the arguments of the printf library, which several parts print with.
use mirus.Base.{ℕ, List, [], ◌∷◌}
use mirus.Base.Int.{ℤ}
use Prim.Native.Char.{code}
use Prim.Native.String as S
use Prim.Native.String.{String}

-- the characters of a C text
abbrev pub codes : String → List ℕ
codes S.[] = []
codes (S.◌∷◌ c cs) = code c ∷ codes cs

pub data Arg : Type 0 where
  number : ℕ → Arg
  text : String → Arg
  chars : List ℕ → Arg
  integer : ℤ → Arg
