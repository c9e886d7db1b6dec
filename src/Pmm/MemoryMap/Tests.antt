-- ===== src/Pmm/MemoryMap/Tests.antt =====
-- A memory map of one usable region, with an emitter that prints keys and values in a row.
use mirus.Base.{◌-◌, ◌≡◌, refl, arith, some, List, [], ◌∷◌, ◌++◌}
use mirus.Base.Format.{codes}
use mirus.Serial.{Serial}
use mirus.Logger.{log_debug}
use mirus.Serial.Ready.{ready_port, ready_port-Drains, idle}
use mirus.Logger.Plain.{plain_jems, plain_jems-PrintsText}
use mirus.Logger.Text.{bytes}
use mirus.Logger.Message.{start_text, end_text}
use mirus.DebugLogger.{debug_logger_initialize}
use mirus.Pmm.{MemmapEntry}
use mirus.Pmm.MemoryMap.Plain.{value_arrays, value_arrays-PrintsArrays, one_letter}
use mirus.Pmm.MemoryMap.{max_level, get_memmap_type_string, map_calls, log_memory_map_debug}
use mirus.Pmm.MemoryMap.Document.{document_calls, map_document}
use mirus.Pmm.MemoryMap.Depth.{nest, nest-map_calls}
use mirus.Pmm.MemoryMap.Lines.{calls_text, log_memory_map_debug_lem}

abbrev one_region : List MemmapEntry
one_region = record { base = 0x1000; length = 0x5000; type = 0 } ∷ []

unknown_type : get_memmap_type_string 8 ≡ "Unknown"
unknown_type = refl

nest-map_calls_example :
    nest (max_level - 1) (map_calls one_letter one_region 0x9000 0x5000 0x100000 0x4000) 0 ≡ some 0
nest-map_calls_example = nest-map_calls one_letter one_region 0x9000 0x5000 0x100000 0x4000

log_memory_map_debug_lem_example :
    (w' : Serial) × (log_memory_map_debug
        (debug_logger_initialize ready_port 100)
        32
        (λ a. 0)
        plain_jems
        value_arrays
        one_letter
        one_region
        0x9000
        0x5000
        0x100000
        0x4000
        4096
        idle
      ≡ some w')
    × (w'.output
        ≡ bytes (start_text plain_jems log_debug (codes "memory_manager") (codes "Memory Map"))
          ++ (bytes (
                calls_text plain_jems value_arrays
                  (document_calls
                    (map_document one_letter one_region 0x9000 0x5000 0x100000 0x4000))
                  10)
              ++ bytes (end_text plain_jems)))
log_memory_map_debug_lem_example =
    log_memory_map_debug_lem plain_jems value_arrays ready_port 1 ready_port-Drains 100
      (omega arith) (omega arith) 32 (λ a. 0) one_letter one_region 0x9000 0x5000 0x100000 0x4000
      4096 idle plain_jems-PrintsText value_arrays-PrintsArrays (λ f args size. omega arith)
      (omega arith) (omega arith) (omega arith) (omega arith)
