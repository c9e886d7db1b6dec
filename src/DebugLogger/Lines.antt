-- ===== src/DebugLogger/Lines.antt =====
-- What `log_message` on the loggers of debug_logger.c and hal_logger.c sends to the serial port.
use mirus.Base.{ℕ, ◌^◌, arith, ◌≤◌, ◌<◌, ◌≡◌, refl, ◌∙◌, some, List, [], ◌∷◌, ◌++◌, length}
use mirus.Libk.{Memory}
use mirus.Libk.Strings.{IsString}
use mirus.Serial.{Device, Serial}
use mirus.Serial.Wait.{Drains, sent, serial_write_string_lem}
use mirus.Logger.{max_log_message_size, LogLevel, Jems, call_writers, log_message}
use mirus.Logger.Text.{
  NoNul, Trimmed, remove_newline-Trimmed, NoNul-Trimmed, bytes, store, store-IsString, store-sent,
}
use mirus.Logger.Message.{PrintsText, message_line, message_line-NoNul, log_message_writers}
use mirus.DebugLogger.{kernel_writers, debug_logger_initialize, hal_logger_initialize}

module _ (device : Device) (bound : ℕ) (drains : Drains bound device) (fuel : ℕ)
    (ready : bound ≤ fuel) where
  -- a string passed to the one writer
  pub string_written :
      (n str : ℕ) (m : Memory) (s : Serial)
      → IsString m str n
      → n < fuel
      → n < 2 ^ 32
      → (s' : Serial) × (call_writers 1 0 (kernel_writers device fuel) str m s ≡ some s')
        × (s'.output ≡ s.output ++ sent n str m)
  unfolding call_writers
  string_written n str m s t short small =
      let (s', wrote, out) =
        serial_write_string_lem device bound drains fuel n str m s t short small ready in
      (s', rw (call_writers, wrote) refl, out)

  pub buffer_written :
      (text : List ℕ) (out : ℕ) (m : Memory) (s : Serial)
      → NoNul text
      → length text < fuel
      → length text < 2 ^ 32
      → (s' : Serial) × (call_writers 1 0
            (kernel_writers device fuel)
            out
            (store m out (text ++ 0 ∷ []))
            s
          ≡ some s')
        × (s'.output ≡ s.output ++ bytes text)
  buffer_written text out m s clean short small =
      let (s', wrote, sent_all) =
        string_written (length text) out (store m out (text ++ 0 ∷ [])) s
          (store-IsString text out m clean) short small in
      (s', wrote, rw (store-sent text (0 ∷ []) out m) at sent_all)

  module _ (jems : Jems) (prints : PrintsText jems) where
    -- If the transmitter drains within `bound` reads, the emitter prints no `\0`, and component and
    -- the formatted text have none, then with fuel beyond the line, and if the line fits with its
    -- `\0` into the 4096 bytes of the JSON buffer, `log_message` on the logger of
    -- the kernel returns, having sent exactly the bytes of one JSON line: the object with level,
    -- component and message, where the message is the text without a line break at its end, and
    -- one line break. The logger of the HAL does the same.
    pub log_message-debug_logger_initialize :
        (level : LogLevel) (component message : List ℕ) (formatted : ℕ → List ℕ) (out : ℕ)
        (m : Memory) (s : Serial)
        → NoNul component
        → NoNul (formatted max_log_message_size)
        → Trimmed (formatted max_log_message_size) message
        → length (message_line jems level component message) < fuel
        → length (message_line jems level component message) < max_log_message_size
        → (s' : Serial) × (log_message jems
              (debug_logger_initialize device fuel)
              level
              component
              formatted
              out
              m
              s
            ≡ some s')
          × (log_message jems (hal_logger_initialize device fuel) level component formatted out m s
              ≡ some s')
          × (s'.output ≡ s.output ++ bytes (message_line jems level component message))
    unfolding debug_logger_initialize hal_logger_initialize
    log_message-debug_logger_initialize level component message formatted out m s clean text_clean
          trimmed short fits =
        let text = formatted max_log_message_size in
        let line = message_line jems level component message in
        let kernel = debug_logger_initialize device fuel in
        let hal = hal_logger_initialize device fuel in
        let same = remove_newline-Trimmed text message trimmed in
        let (s', wrote, sent_all) =
          buffer_written line out m s
            (message_line-NoNul jems prints level component message clean
              (NoNul-Trimmed text message trimmed text_clean))
            short (omega (arith, fits)) in
        (
          s',
          log_message_writers jems kernel level component message formatted out m s same fits
              ∙ wrote,
          log_message_writers jems hal level component message formatted out m s same fits ∙ wrote,
          sent_all,
        )
