-- ===== src/Syscalls/Logged/Tests.antt =====
-- A write call of 20 bytes, with its log lines on a port that is always ready.
use mirus.Base.{ℕ, ◌+◌, List}
use mirus.Base.Format.{Arg}
use mirus.Libk.{Memory}
use mirus.Serial.{Serial}
use mirus.Syscalls.{SystemCallArgs}
use Prim.Native.String.{String}

abbrev one_byte : (dest size : ℕ) → String → List Arg → Memory → ℕ × Memory
one_byte dest size format args m = (1, m)

abbrev twenty_bytes : SystemCallArgs
twenty_bytes i = i + 18
