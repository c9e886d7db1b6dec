-- ===== src/Pmm/MemoryMap/Lines.antt =====
-- What the memory map of kernel/memory/pmm.c sends to the serial port.
use mirus.Base.{ℕ, ◌<◌, ◌≤◌, ◌≡◌, refl, sym, ap, ◌∙◌, arith, some, List, [], ◌∷◌, ◌++◌, length}
use mathlib.Core.List.{append-nil, append_assoc}
use mirus.Base.Format.{codes, Arg}
use mirus.Libk.{Memory}
use mirus.Serial.{Device, Serial}
use mirus.Serial.Wait.{Drains}
use mirus.Logger.{max_log_message_size, Jems, log_debug, log_stream_data}
use mirus.Logger.Text.{NoNul, bytes, bytes-append}
use mirus.Logger.Message.{
  PrintsText, start_text, start_text-NoNul, end_text, end_text-NoNul, log_stream_start_writers,
  log_stream_end_writers,
}
use mirus.DebugLogger.{debug_logger_initialize}
use mirus.DebugLogger.Lines.{buffer_written}
use mirus.Pmm.{MemmapEntry}
use mirus.Pmm.MemoryMap.{
  max_level, Call, Arrays, perform, map_calls, jems_writer, stream_text, stream_calls,
  log_memory_map_debug,
}
use mirus.Pmm.MemoryMap.Clean.{PrintsArrays, AllClean, map_calls-AllClean}
use mirus.Pmm.MemoryMap.Document.{document_calls, map_document, map_calls-map_document}
use Prim.Native.String.{String}

module _ (jems : Jems) (arrays : Arrays jems) where
  -- the text of some calls in a row
  abbrev pub calls_text : List Call → jems.State → List ℕ
  calls_text [] s = []
  calls_text (c ∷ cs) s = (perform jems arrays c s).0 ++ calls_text cs (perform jems arrays c s).1

  module _ (device : Device) (bound : ℕ) (drains : Drains bound device) (fuel : ℕ)
      (ready : bound ≤ fuel) (two : 1 < fuel) (buf : ℕ) (m : Memory) where
    stream_text_lem :
        (cs : List ℕ) (w : Serial)
        → NoNul cs
        → (w' : Serial) × (stream_text (debug_logger_initialize device fuel) buf m cs w ≡ some w')
          × (w'.output ≡ w.output ++ bytes cs)
    unfolding stream_text jems_writer log_stream_data debug_logger_initialize
    stream_text_lem [] w h = (w, refl, sym (append-nil w.output))
    stream_text_lem (c ∷ cs) w (here, rest) =
        let (w1, wrote, out1) =
          buffer_written device bound drains fuel ready (c ∷ []) buf m w (here, tt) two
            (omega arith) in
        let (w2, went, out2) = stream_text_lem cs w1 rest in
        (
          w2,
          rw (stream_text, jems_writer, log_stream_data, wrote) went,
          out2 ∙ ap (λ o. o ++ bytes cs) out1 ∙ append_assoc w.output (bytes (c ∷ [])) (bytes cs),
        )

    stream_calls_lem :
        (cs : List Call) (s : jems.State) (w : Serial)
        → AllClean jems arrays cs
        → (w' : Serial) × (stream_calls
              (debug_logger_initialize device fuel)
              buf
              m
              jems
              arrays
              cs
              s
              w
            ≡ some w')
          × (w'.output ≡ w.output ++ bytes (calls_text cs s))
    unfolding stream_calls
    stream_calls_lem [] s w h = (w, refl, sym (append-nil w.output))
    stream_calls_lem (c ∷ cs) s w (here, rest) =
        let r = perform jems arrays c s in
        let (w1, wrote, out1) = stream_text_lem r.0 w (here s) in
        let (w2, went, out2) = stream_calls_lem cs r.1 w1 rest in
        (
          w2,
          rw (stream_calls, wrote) went,
          out2
              ∙ ap (λ o. o ++ bytes (calls_text cs r.1)) out1
              ∙ append_assoc w.output (bytes r.0) (bytes (calls_text cs r.1))
              ∙ ap (λ o. w.output ++ o) (sym (bytes-append r.0 (calls_text cs r.1))),
        )

    -- If the transmitter drains within `bound` reads, the emitter and `snprintf_` print no `\0`, and
    -- the start and the end of the log object fit into their buffers, then with fuel beyond both
    -- texts `log_memory_map_debug` on the logger of the kernel returns, having sent the start of the
    -- log object, then exactly the text that the emitter prints for the document of the memory map,
    -- character by character, and the end. The document has the two sums, the kernel's place and its
    -- size as fields, and for each entry an object with its base, its length and its type's name;
    -- sizes are in KiB below 2^20, in MiB and KiB below 2^30, and in GiB and MiB from there on.
    pub log_memory_map_debug_lem :
        (snprintf_ : String → List Arg → ℕ → List ℕ) (entries : List MemmapEntry)
        (total_memory usable_memory kernel_start kernel_size out : ℕ) (w : Serial)
        → PrintsText jems
        → PrintsArrays jems arrays
        → ((f : String) (args : List Arg) (size : ℕ) → NoNul (snprintf_ f args size))
        → length (start_text jems log_debug (codes "memory_manager") (codes "Memory Map")) < fuel
        → length (end_text jems) < fuel
        → length (start_text jems log_debug (codes "memory_manager") (codes "Memory Map"))
          < max_log_message_size
        → length (end_text jems) < max_log_message_size
        → (w' : Serial) × (log_memory_map_debug
              (debug_logger_initialize device fuel)
              buf
              m
              jems
              arrays
              snprintf_
              entries
              total_memory
              usable_memory
              kernel_start
              kernel_size
              out
              w
            ≡ some w')
          × (w'.output
              ≡ w.output
                ++ (bytes (start_text jems log_debug (codes "memory_manager") (codes "Memory Map"))
                    ++ (bytes (
                          calls_text
                            (document_calls (
                              map_document snprintf_ entries total_memory usable_memory kernel_start
                                kernel_size))
                            (jems.init max_level))
                        ++ bytes (end_text jems))))
    unfolding log_memory_map_debug debug_logger_initialize
    log_memory_map_debug_lem snprintf_ entries total_memory usable_memory kernel_start kernel_size
          out w prints prints_arrays clean start_short end_short start_fits end_fits =
        let logger = debug_logger_initialize device fuel in
        let start = start_text jems log_debug (codes "memory_manager") (codes "Memory Map") in
        let calls =
          map_calls snprintf_ entries total_memory usable_memory kernel_start kernel_size in
        let document =
          document_calls
            (map_document snprintf_ entries total_memory usable_memory kernel_start kernel_size) in
        let map_text = bytes (calls_text document (jems.init max_level)) in
        let printed =
          ap (λ cs. bytes (calls_text cs (jems.init max_level)))
            (map_calls-map_document snprintf_ entries total_memory usable_memory kernel_start
              kernel_size) in
        let (w1, wrote1, out1) =
          buffer_written device bound drains fuel ready start out m w
            (start_text-NoNul jems prints log_debug (codes "memory_manager") (codes "Memory Map")
              (omega arith) (omega arith))
            start_short (omega (arith, start_fits)) in
        let (w2, wrote2, out2) = stream_calls_lem calls (jems.init max_level) w1 (
          map_calls-AllClean jems arrays prints prints_arrays snprintf_ clean entries total_memory
            usable_memory kernel_start kernel_size) in
        let (w3, wrote3, out3) =
          buffer_written device bound drains fuel ready (end_text jems) out m w2
            (end_text-NoNul jems prints) end_short (omega (arith, end_fits)) in
        let began =
          log_stream_start_writers jems logger log_debug (codes "memory_manager")
            (codes "Memory Map") out m w start_fits
          ∙ wrote1 in
        let ended = log_stream_end_writers jems logger out m w2 end_fits ∙ wrote3 in
        (
          w3,
          rw (log_memory_map_debug, began, wrote2) ended,
          out3
              ∙ ap (λ o. o ++ bytes (end_text jems))
                  (out2 ∙ ap (λ t. w1.output ++ t) printed ∙ ap (λ o. o ++ map_text) out1)
              ∙ simp append_assoc,
        )
