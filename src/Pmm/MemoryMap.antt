-- ===== src/Pmm/MemoryMap.antt =====
-- `log_memory_map_debug` of kernel/memory/pmm.c: the memory map as JSON in the data of a log
-- stream. The emitter's calls for arrays and integers are an argument, as is `snprintf_`.
pub mod Clean
pub mod Document
pub mod Lines
pub mod Depth
pub mod Plain
mod Tests
use mirus.Base.{
  ℕ, zero, suc, ◌+◌, ◌/◌, ◌%◌, Option, none, some, List, [], ◌∷◌, ◌++◌, ltb, ◌==◌, if◌then◌else◌,
  update,
}
use mirus.Base.Format.{codes, Arg, number}
use mirus.Base.Int.{ℤ}
use mirus.Libk.{Memory}
use mirus.Syscalls.{to_int64}
use mirus.Logger.{Jems, Logger, log_debug, log_stream_start, log_stream_data, log_stream_end}
use mirus.Pmm.{MemmapEntry}
use Prim.Native.String.{String}

-- `JEMS_MAX_LEVEL` of this file
abbrev pub max_level : ℕ
max_level = 10

abbrev pub memmap_type_strings : List String
memmap_type_strings =
    "Usable" ∷ "Reserved" ∷ "ACPI Reclaimable" ∷ "ACPI NVS" ∷ "Bad Memory"
    ∷ "Bootloader Reclaimable" ∷ "Kernel and Modules" ∷ "Framebuffer" ∷ []

-- the text at an index, or the one for a type that is not in the array
abbrev pub string_at : List String → ℕ → String
string_at [] type = "Unknown"
string_at (name ∷ names) zero = name
string_at (name ∷ names) (suc type) = string_at names type

abbrev pub get_memmap_type_string : ℕ → String
get_memmap_type_string type = string_at memmap_type_strings type

-- the calls of the emitter that this function makes
pub data Call : Type 0 where
  object_open object_close array_close : Call
  key_string : (key value : List ℕ) → Call
  key_integer : (key : List ℕ) (value : ℤ) → Call
  key_array_open : (key : List ℕ) → Call

-- the part of the emitter that the logger does not use
pub record Arrays (jems : Jems) : Type 0 where
  pub array_close : jems.State → List ℕ × jems.State
  pub key_array_open : (key : List ℕ) → jems.State → List ℕ × jems.State
  pub key_integer : (key : List ℕ) (value : ℤ) → jems.State → List ℕ × jems.State

abbrev pub perform : (jems : Jems) → Arrays jems → Call → jems.State → List ℕ × jems.State
perform jems arrays object_open = jems.object_open
perform jems arrays object_close = jems.object_close
perform jems arrays array_close = arrays.array_close
perform jems arrays (key_string key value) = jems.key_string key value
perform jems arrays (key_integer key value) = arrays.key_integer key value
perform jems arrays (key_array_open key) = arrays.key_array_open key

module _ (snprintf_ : String → List Arg → (size : ℕ) → List ℕ) where
  pub format_memory_size : (size buffer_size : ℕ) → List ℕ
  format_memory_size size buffer_size =
      let kib = size / 1024 in
      let mib = kib / 1024 in
      let gib = mib / 1024 in
      if ltb 0 gib
      then snprintf_ "%llu bytes (%llu GiB + %llu MiB)"
          (number size ∷ number gib ∷ number (mib % 1024) ∷ []) buffer_size
      else if ltb 0 mib
      then snprintf_ "%llu bytes (%llu MiB + %llu KiB)"
          (number size ∷ number mib ∷ number (kib % 1024) ∷ []) buffer_size
      else snprintf_ "%llu bytes (%llu KiB)" (number size ∷ number kib ∷ []) buffer_size

  -- the loop over the entries
  pub entry_calls : List MemmapEntry → List Call
  entry_calls [] = []
  entry_calls (entry ∷ entries) =
      object_open
      ∷ key_string (codes "base") (snprintf_ "0x%016llx" (number entry.base ∷ []) 64)
      ∷ key_integer (codes "length") (to_int64 entry.length)
      ∷ key_string (codes "type") (codes (get_memmap_type_string entry.type))
      ∷ object_close
      ∷ entry_calls entries

  -- All calls between the start and the end of the stream, in their order.
  pub map_calls :
      (entries : List MemmapEntry) (total_memory usable_memory kernel_start kernel_size : ℕ)
      → List Call
  unfolding format_memory_size entry_calls
  map_calls entries total_memory usable_memory kernel_start kernel_size =
      object_open
      ∷ key_string (codes "total_memory") (format_memory_size total_memory 64)
      ∷ key_string (codes "usable_memory") (format_memory_size usable_memory 64)
      ∷ key_string (codes "kernel_start") (snprintf_ "0x%016llx" (number kernel_start ∷ []) 64)
      ∷ key_string (codes "kernel_size") (format_memory_size kernel_size 64)
      ∷ key_array_open (codes "entries")
      ∷ (entry_calls entries ++ array_close ∷ object_close ∷ [])

module _ {W : Type 0} (logger : Logger W) (buf : ℕ) (m : Memory) where
  -- `jems_writer` of this file, which passes each character on in a text of its own
  pub jems_writer : (ch : ℕ) → W → Option W
  unfolding log_stream_data
  jems_writer ch w = log_stream_data logger buf 1 (update (update m buf ch) (buf + 1) 0) w

  -- the writer for each character of one call
  pub stream_text : List ℕ → W → Option W
  unfolding jems_writer
  stream_text [] w = some w
  stream_text (c ∷ cs) w = elim (jems_writer c w) [ none ↦ none | some w' ↦ stream_text cs w' ]

  pub stream_calls : (jems : Jems) → Arrays jems → List Call → jems.State → W → Option W
  unfolding stream_text
  stream_calls jems arrays [] s w = some w
  stream_calls jems arrays (c ∷ cs) s w =
      let r = perform jems arrays c s in
      elim (stream_text r.0 w) [ none ↦ none | some w' ↦ stream_calls jems arrays cs r.1 w' ]

  -- `out` is the buffer inside the logger, `buf` that of `jems_writer`.
  pub log_memory_map_debug :
      (jems : Jems)
      → Arrays jems
      → (snprintf_ : String → List Arg → ℕ → List ℕ) (entries : List MemmapEntry)
        (total_memory usable_memory kernel_start kernel_size out : ℕ)
      → W
      → Option W
  unfolding stream_calls map_calls
  log_memory_map_debug jems arrays snprintf_ entries total_memory usable_memory kernel_start
        kernel_size out w =
      let calls = map_calls snprintf_ entries total_memory usable_memory kernel_start kernel_size in
      elim (log_stream_start jems logger log_debug (codes "memory_manager") (codes "Memory Map") out
        m w) [
          | none ↦ none
          | some w1 ↦ elim (stream_calls jems arrays calls (jems.init max_level) w1) [
            | none ↦ none
            | some w2 ↦ log_stream_end jems logger out m w2
          ]
        ]
