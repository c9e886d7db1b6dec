-- ===== src/Pmm/MemoryMap/Clean.antt =====
-- No text that `log_memory_map_debug` of kernel/memory/pmm.c prints has a `\0` in it.
use mirus.Base.{
  length, ◌<◌, ℕ, zero, suc, ◌/◌, arith, List, [], ◌∷◌, ◌++◌, ltb, Bool-cases, inl, inr,
}
use mirus.Base.Format.{codes, Arg}
use mirus.Base.Int.{ℤ}
use mirus.Logger.{Jems}
use mirus.Logger.Text.{NoNul}
use mirus.Logger.Message.{PrintsText}
use mirus.Pmm.{MemmapEntry}
use mirus.Pmm.MemoryMap.{
  Call, object_close, array_close, Arrays, perform, memmap_type_strings, string_at,
  format_memory_size, entry_calls, map_calls,
}
use Prim.Native.String.{String}

-- The emitter prints no `\0` for arrays and integers.
pub record PrintsArrays (jems : Jems) (arrays : Arrays jems) : Type 0 where
  pub array_close : (s : jems.State) → NoNul (arrays.array_close s).0
  pub key_array_open :
      (key : List ℕ) (s : jems.State) → NoNul key → NoNul (arrays.key_array_open key s).0
  pub key_integer :
      (key : List ℕ) (value : ℤ) (s : jems.State)
      → NoNul key
      → NoNul (arrays.key_integer key value s).0

abbrev AllNoNul : List String → Type 0
AllNoNul [] = Unit
AllNoNul (name ∷ names) = NoNul (codes name) × AllNoNul names

type_clean :
    (names : List String) (type : ℕ) → AllNoNul names → NoNul (codes (string_at names type))
type_clean [] type h = omega arith
type_clean (name ∷ names) zero (here, rest) = here
type_clean (name ∷ names) (suc type) (here, rest) = type_clean names type rest

module _ (jems : Jems) (arrays : Arrays jems) where
  -- None of the calls prints a `\0`.
  abbrev pub AllClean : List Call → Type 0
  AllClean [] = Unit
  AllClean (c ∷ cs) = ((s : jems.State) → NoNul (perform jems arrays c s).0) × AllClean cs

  AllClean-append : (cs ds : List Call) → AllClean cs → AllClean ds → AllClean (cs ++ ds)
  AllClean-append [] ds h k = k
  AllClean-append (c ∷ cs) ds (here, rest) k = (here, AllClean-append cs ds rest k)

  module _ (prints : PrintsText jems) (prints_arrays : PrintsArrays jems arrays)
      (snprintf_ : String → List Arg → ℕ → List ℕ)
      (clean : (f : String) (args : List Arg) (size : ℕ) → NoNul (snprintf_ f args size)) where
    format_memory_size-NoNul : (size n : ℕ) → NoNul (format_memory_size snprintf_ size n)
    unfolding format_memory_size
    format_memory_size-NoNul size n = elim (Bool-cases (ltb 0 (size / 1024 / 1024 / 1024))) [
      | inl gib ↦ rw gib (clean _ _ _)
      | inr less ↦ elim (Bool-cases (ltb 0 (size / 1024 / 1024))) [
        | inl mib ↦ rw (less, mib) (clean _ _ _)
        | inr small ↦ rw (less, small) (clean _ _ _)
      ]
    ]

    entry_calls-AllClean : (entries : List MemmapEntry) → AllClean (entry_calls snprintf_ entries)
    unfolding entry_calls
    entry_calls-AllClean [] = tt
    entry_calls-AllClean (entry ∷ entries) = (
      prints.object_open,
      (
        λ s. prints.key_string (codes "base") _ s (omega arith) (clean _ _ _),
        (
          λ s. prints_arrays.key_integer (codes "length") _ s (omega arith),
          (
            λ s.
                prints.key_string (codes "type") _ s (omega arith)
                  (type_clean memmap_type_strings entry.type (omega arith)),
            (prints.object_close, entry_calls-AllClean entries),
          ),
        ),
      ),
    )

    pub map_calls-AllClean :
        (entries : List MemmapEntry) (total_memory usable_memory kernel_start kernel_size : ℕ)
        → AllClean (map_calls snprintf_ entries total_memory usable_memory kernel_start kernel_size)
    unfolding map_calls
    map_calls-AllClean entries total_memory usable_memory kernel_start kernel_size =
        let sized = λ (size : ℕ). format_memory_size-NoNul size 64 in
        let tail =
          AllClean-append (entry_calls snprintf_ entries) (array_close ∷ object_close ∷ [])
            (entry_calls-AllClean entries) (prints_arrays.array_close, (prints.object_close, tt)) in
        (
          prints.object_open,
          (
            λ s. prints.key_string (codes "total_memory") _ s (omega arith) (sized total_memory),
            (
              λ s.
                  prints.key_string (codes "usable_memory") _ s (omega arith) (sized usable_memory),
              (
                λ s. prints.key_string (codes "kernel_start") _ s (omega arith) (clean _ _ _),
                (
                  λ s.
                      prints.key_string (codes "kernel_size") _ s (omega arith) (sized kernel_size),
                  (λ s. prints_arrays.key_array_open (codes "entries") s (omega arith), tail),
                ),
              ),
            ),
          ),
        )

-- A printf library that keeps within a buffer of 64 prints each size shorter than that.
pub length-format_memory_size :
    (snprintf_ : String → List Arg → ℕ → List ℕ) (size : ℕ)
    → ((f : String) (args : List Arg) → length (snprintf_ f args 64) < 64)
    → length (format_memory_size snprintf_ size 64) < 64
unfolding format_memory_size
length-format_memory_size snprintf_ size short =
    elim (Bool-cases (ltb 0 (size / 1024 / 1024 / 1024))) [
      | inl giant ↦ rw giant (short _ _)
      | inr no_giant ↦ elim (Bool-cases (ltb 0 (size / 1024 / 1024))) [
        | inl large ↦ rw (no_giant, large) (short _ _)
        | inr small ↦ rw (no_giant, small) (short _ _)
      ]
    ]
