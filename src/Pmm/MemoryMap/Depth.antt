-- ===== src/Pmm/MemoryMap/Depth.antt =====
-- How deep the JSON of the memory map in kernel/memory/pmm.c nests.
use mirus.Base.{ℕ, ◌+◌, ◌-◌, ◌≡◌, refl, Option, none, some, List, [], ◌∷◌, ◌++◌, ltb, if◌then◌else◌}
use mirus.Base.Format.{Arg}
use mirus.Pmm.{MemmapEntry}
use mirus.Pmm.MemoryMap.{
  max_level, Call, object_open, object_close, array_close, key_string, key_integer, key_array_open,
  entry_calls, map_calls,
}
use Prim.Native.String.{String}

-- The depth after some calls, unless one opens above the limit or closes what is not open.
abbrev pub nest : (limit : ℕ) → List Call → (depth : ℕ) → Option ℕ
nest limit [] depth = some depth
nest limit (object_open ∷ cs) depth = if ltb depth limit then nest limit cs (depth + 1) else none
nest limit (key_array_open key ∷ cs) depth =
    if ltb depth limit then nest limit cs (depth + 1) else none
nest limit (object_close ∷ cs) depth = if ltb 0 depth then nest limit cs (depth - 1) else none
nest limit (array_close ∷ cs) depth = if ltb 0 depth then nest limit cs (depth - 1) else none
nest limit (key_string key value ∷ cs) depth = nest limit cs depth
nest limit (key_integer key value ∷ cs) depth = nest limit cs depth

module _ (snprintf_ : String → List Arg → (size : ℕ) → List ℕ) where
  nest-entry_calls :
      (entries : List MemmapEntry) (rest : List Call)
      → nest (max_level - 1) (entry_calls snprintf_ entries ++ rest) 2 ≡ nest (max_level - 1) rest 2
  unfolding entry_calls
  nest-entry_calls [] rest = refl
  nest-entry_calls (entry ∷ entries) rest = nest-entry_calls entries rest

  -- Whatever the entries are, each object and array that the memory map opens fits below the last
  -- of the emitter's levels, and all are closed at the end.
  pub nest-map_calls :
      (entries : List MemmapEntry) (total_memory usable_memory kernel_start kernel_size : ℕ)
      → nest
          (max_level - 1)
          (map_calls snprintf_ entries total_memory usable_memory kernel_start kernel_size)
          0
        ≡ some 0
  unfolding map_calls
  nest-map_calls entries total_memory usable_memory kernel_start kernel_size =
      nest-entry_calls entries (array_close ∷ object_close ∷ [])
