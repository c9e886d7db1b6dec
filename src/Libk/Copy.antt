-- ===== src/Libk/Copy.antt =====
-- `memcpy`, `memmove` and `memset` of libs/libk/src/string.c, byte by byte.
use mirus.Base.{
  ℕ, zero, suc, ◌+◌, ◌-◌, ◌%◌, ◌≤◌, ◌≡◌, ◌⊎◌, ◌&&◌, arith, ltb, leb, if◌then◌else◌, update,
}
use mirus.Libk.{Memory, copy_up, copy_down, memcpy, memmove, fill_up, memset}

-- the memory after a copy of `n` bytes as they were before it
abbrev pub copied : (dest src n : ℕ) → Memory → Memory
copied dest src n m x = if leb dest x && ltb x (dest + n) then m (src + (x - dest)) else m x

copy_up_lem :
    (rounds i dest src : ℕ) (m : Memory) (x : ℕ)
    → (dest ≤ src) ⊎ (src + i + rounds ≤ dest + i)
    → copy_up rounds i dest src m x
      ≡ (if leb (dest + i) x && ltb x (dest + i + rounds) then m (src + (x - dest)) else m x)
unfolding copy_up
copy_up_lem zero i dest src m x h = ground arith
copy_up_lem (suc rounds) i dest src m x h =
    let m' = update m (dest + i) (m (src + i)) in
    let h' : (dest ≤ src) ⊎ (src + (i + 1) + rounds ≤ dest + (i + 1)) = ground arith in
    let rest = copy_up_lem rounds (i + 1) dest src m' x h' in ground (arith, rest)

copy_down_lem :
    (i dest src : ℕ) (m : Memory) (x : ℕ)
    → src ≤ dest
    → copy_down i dest src m x ≡ copied dest src i m x
unfolding copy_down
copy_down_lem zero dest src m x h = ground arith
copy_down_lem (suc i) dest src m x h =
    let rest = copy_down_lem i dest src (update m (dest + i) (m (src + i))) x h in
    ground (arith, rest)

-- `memmove` copies the bytes as they were before the call, however source and destination overlap,
-- and changes no other byte.
pub memmove_lem :
    (dest src n : ℕ) (m : Memory) (x : ℕ) → memmove dest src n m x ≡ copied dest src n m x
unfolding memmove
memmove_lem dest src n m x =
    ground (arith, copy_up_lem n 0 dest src m x, copy_down_lem n dest src m x)

-- `memcpy` does the same if the destination does not start inside the source.
pub memcpy_lem :
    (dest src n : ℕ) (m : Memory) (x : ℕ)
    → (dest ≤ src) ⊎ (src + n ≤ dest)
    → memcpy dest src n m x ≡ copied dest src n m x
unfolding memcpy
memcpy_lem dest src n m x h = ground (arith, copy_up_lem n 0 dest src m x)

fill_up_lem :
    (rounds i s byte : ℕ) (m : Memory) (x : ℕ)
    → fill_up rounds i s byte m x ≡ (if leb (s + i) x && ltb x (s + i + rounds) then byte else m x)
unfolding fill_up
fill_up_lem zero i s byte m x = ground arith
fill_up_lem (suc rounds) i s byte m x =
    ground (arith, fill_up_lem rounds (i + 1) s byte (update m (s + i) byte) x)

-- `memset` puts the low byte of its argument into each of the bytes, and changes no other byte.
pub memset_lem :
    (s c n : ℕ) (m : Memory) (x : ℕ)
    → memset s c n m x ≡ (if leb s x && ltb x (s + n) then c % 256 else m x)
unfolding memset
memset_lem s c n m x = ground (arith, fill_up_lem n 0 s (c % 256) m x)
