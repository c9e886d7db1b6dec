-- ===== src/Pmm/MemoryMap/Document.antt =====
-- The memory map of kernel/memory/pmm.c as a document: what its fields and entries are, apart from
-- the calls that print it.
use mirus.Base.{
  ℕ, zero, suc, ◌/◌, ◌%◌, ◌^◌, ◌≡◌, refl, arith, true, false, List, [], ◌∷◌, ◌++◌, ltb,
  if◌then◌else◌, Bool-cases, inl, inr,
}
use mirus.Base.Format.{codes, Arg, number}
use mirus.Base.Int.{ℤ}
use mirus.Syscalls.{to_int64}
use mirus.Pmm.{MemmapEntry}
use mirus.Pmm.MemoryMap.{
  Call, object_open, object_close, array_close, key_string, key_integer, key_array_open,
  get_memmap_type_string, format_memory_size, entry_calls, map_calls,
}
use Prim.Native.String.{String}

pub data Value : Type 0 where
  characters : List ℕ → Value
  integer : ℤ → Value

-- An object with fields, of which the last is an array of objects.
pub record Document : Type 0 where
  pub fields : List (String × Value)
  pub key : String
  pub elements : List (List (String × Value))

-- how a document is printed
abbrev field_call : String → Value → Call
field_call key (characters cs) = key_string (codes key) cs
field_call key (integer i) = key_integer (codes key) i

abbrev field_calls : List (String × Value) → List Call → List Call
field_calls [] rest = rest
field_calls ((key, v) ∷ fields) rest = field_call key v ∷ field_calls fields rest

abbrev element_calls : List (List (String × Value)) → List Call → List Call
element_calls [] rest = rest
element_calls (fields ∷ elements) rest =
    object_open ∷ field_calls fields (object_close ∷ element_calls elements rest)

abbrev pub document_calls : Document → List Call
document_calls d =
    object_open
    ∷ field_calls d.fields
        (key_array_open (codes d.key) ∷ element_calls d.elements (array_close ∷ object_close ∷ []))

-- the types of the boot protocol
abbrev pub type_name : ℕ → String
type_name zero = "Usable"
type_name (suc zero) = "Reserved"
type_name (suc (suc zero)) = "ACPI Reclaimable"
type_name (suc (suc (suc zero))) = "ACPI NVS"
type_name (suc (suc (suc (suc zero)))) = "Bad Memory"
type_name (suc (suc (suc (suc (suc zero))))) = "Bootloader Reclaimable"
type_name (suc (suc (suc (suc (suc (suc zero)))))) = "Kernel and Modules"
type_name (suc (suc (suc (suc (suc (suc (suc zero))))))) = "Framebuffer"
type_name (suc (suc (suc (suc (suc (suc (suc (suc n)))))))) = "Unknown"

get_memmap_type_string-type_name : (type : ℕ) → get_memmap_type_string type ≡ type_name type
get_memmap_type_string-type_name zero = refl
get_memmap_type_string-type_name (suc zero) = refl
get_memmap_type_string-type_name (suc (suc zero)) = refl
get_memmap_type_string-type_name (suc (suc (suc zero))) = refl
get_memmap_type_string-type_name (suc (suc (suc (suc zero)))) = refl
get_memmap_type_string-type_name (suc (suc (suc (suc (suc zero))))) = refl
get_memmap_type_string-type_name (suc (suc (suc (suc (suc (suc zero)))))) = refl
get_memmap_type_string-type_name (suc (suc (suc (suc (suc (suc (suc zero))))))) = refl
get_memmap_type_string-type_name (suc (suc (suc (suc (suc (suc (suc (suc n)))))))) = refl

module _ (snprintf_ : String → List Arg → ℕ → List ℕ) where
  -- A size in its two largest units: KiB below 2^20, then MiB below 2^30, then GiB.
  abbrev pub size_text : ℕ → List ℕ
  size_text size =
      if ltb size (2 ^ 20)
      then snprintf_ "%llu bytes (%llu KiB)" (number size ∷ number (size / 2 ^ 10) ∷ []) 64
      else if ltb size (2 ^ 30)
      then snprintf_ "%llu bytes (%llu MiB + %llu KiB)"
          (number size ∷ number (size / 2 ^ 20) ∷ number (size % 2 ^ 20 / 2 ^ 10) ∷ []) 64
      else snprintf_ "%llu bytes (%llu GiB + %llu MiB)"
          (number size ∷ number (size / 2 ^ 30) ∷ number (size % 2 ^ 30 / 2 ^ 20) ∷ []) 64

  format_memory_size-size_text : (size : ℕ) → format_memory_size snprintf_ size 64 ≡ size_text size
  unfolding format_memory_size
  format_memory_size-size_text size =
      let kib : size / 1024 ≡ size / 2 ^ 10 = omega arith in
      let mib : size / 1024 / 1024 ≡ size / 2 ^ 20 = omega arith in
      let gib : size / 1024 / 1024 / 1024 ≡ size / 2 ^ 30 = omega arith in
      let kib_left : size / 1024 % 1024 ≡ size % 2 ^ 20 / 2 ^ 10 = omega arith in
      let mib_left : size / 1024 / 1024 % 1024 ≡ size % 2 ^ 30 / 2 ^ 20 = omega arith in
      elim (Bool-cases (ltb size (2 ^ 20))) [
        | inl small ↦
            let no_gib : ltb 0 (size / 1024 / 1024 / 1024) ≡ false = ground (arith, small) in
            let no_mib : ltb 0 (size / 1024 / 1024) ≡ false = ground (arith, small) in
            rw (small, no_gib, no_mib, kib) refl
        | inr large ↦ elim (Bool-cases (ltb size (2 ^ 30))) [
          | inl middle ↦
              let no_gib : ltb 0 (size / 1024 / 1024 / 1024) ≡ false = ground (arith, middle) in
              let some_mib : ltb 0 (size / 1024 / 1024) ≡ true = ground (arith, large) in
              rw (large, middle, no_gib, some_mib, kib_left, mib) refl
          | inr giant ↦
              let some_gib : ltb 0 (size / 1024 / 1024 / 1024) ≡ true = ground (arith, giant) in
              rw (large, giant, some_gib, mib_left, gib) refl
        ]
      ]

  abbrev pub entry_object : MemmapEntry → List (String × Value)
  entry_object e =
      ("base", characters (snprintf_ "0x%016llx" (number e.base ∷ []) 64))
      ∷ ("length", integer (to_int64 e.length))
      ∷ ("type", characters (codes (type_name e.type)))
      ∷ []

  abbrev pub entry_objects : List MemmapEntry → List (List (String × Value))
  entry_objects [] = []
  entry_objects (e ∷ es) = entry_object e ∷ entry_objects es

  abbrev pub map_document :
      (entries : List MemmapEntry) (total_memory usable_memory kernel_start kernel_size : ℕ)
      → Document
  map_document entries total_memory usable_memory kernel_start kernel_size = record {
    fields =
        ("total_memory", characters (size_text total_memory))
        ∷ ("usable_memory", characters (size_text usable_memory))
        ∷ ("kernel_start", characters (snprintf_ "0x%016llx" (number kernel_start ∷ []) 64))
        ∷ ("kernel_size", characters (size_text kernel_size))
        ∷ [];
    key = "entries";
    elements = entry_objects entries;
  }

  entry_calls-entry_objects :
      (entries : List MemmapEntry) (rest : List Call)
      → entry_calls snprintf_ entries ++ rest ≡ element_calls (entry_objects entries) rest
  unfolding entry_calls
  entry_calls-entry_objects [] rest = refl
  entry_calls-entry_objects (e ∷ es) rest =
      rw (get_memmap_type_string-type_name e.type, entry_calls-entry_objects es rest) refl

  -- The calls that the code makes print this document.
  pub map_calls-map_document :
      (entries : List MemmapEntry) (total_memory usable_memory kernel_start kernel_size : ℕ)
      → map_calls snprintf_ entries total_memory usable_memory kernel_start kernel_size
        ≡ document_calls (map_document entries total_memory usable_memory kernel_start kernel_size)
  unfolding map_calls
  map_calls-map_document entries total_memory usable_memory kernel_start kernel_size =
      rw
        (
          format_memory_size-size_text total_memory,
          format_memory_size-size_text usable_memory,
          format_memory_size-size_text kernel_size,
          entry_calls-entry_objects entries (array_close ∷ object_close ∷ []),
        )
        refl
