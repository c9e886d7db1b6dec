-- ===== src/DebugLogger/Tests.antt =====
-- The loggers on a serial port that is always ready, with an emitter that prints names and values
-- in a row.
use mirus.Base.{
  inl, ℕ, zero, suc, ◌+◌, ◌≤◌, ◌<◌, ◌≡◌, ◌↔◌, refl, arith, false, some, List, [], ◌∷◌, ◌++◌, ◌==◌,
  if◌then◌else◌, length-append,
}
use mirus.Libk.{Memory}
use mirus.Libk.Strings.{IsString}
use mirus.Serial.{Serial}
use mirus.Serial.Wait.{sent}
use mirus.Logger.{jems_max_level, log_info, log_message, log_complex, create_json_log}
use mirus.Serial.Ready.{ready_port, ready_port-Drains, idle}
use mirus.Logger.Plain.{plain_jems, plain_jems-PrintsText}
use mirus.Logger.Text.{bytes}
use mirus.Logger.Message.{message_line, start_text, end_text}
use mirus.Logger.Overflow.{PrintsValues, create_json_log_overflow}
use mirus.DebugLogger.{debug_logger_initialize, hal_logger_initialize}
use mirus.DebugLogger.Lines.{log_message-debug_logger_initialize}
use mirus.DebugLogger.Stream.{log_complex-debug_logger_initialize}

plain_jems-PrintsValues : PrintsValues plain_jems
plain_jems-PrintsValues key value s = omega (arith, length-append key value)

-- "up\n" from the component "k"
abbrev component_k : List ℕ
component_k = b'k' ∷ []

abbrev up : ℕ → List ℕ
up size = b'u' ∷ b'p' ∷ b'\n' ∷ []

log_message-debug_logger_initialize_example :
    (s' : Serial) × (log_message plain_jems
        (debug_logger_initialize ready_port 100)
        log_info
        component_k
        up
        64
        (λ a. 0)
        idle
      ≡ some s')
    × (log_message plain_jems
          (hal_logger_initialize ready_port 100)
          log_info
          component_k
          up
          64
          (λ a. 0)
          idle
        ≡ some s')
    × (s'.output ≡ bytes (message_line plain_jems log_info component_k (b'u' ∷ b'p' ∷ [])))
log_message-debug_logger_initialize_example =
    log_message-debug_logger_initialize ready_port 1 ready_port-Drains 100 (omega arith) plain_jems
      plain_jems-PrintsText log_info component_k (b'u' ∷ b'p' ∷ []) up 64 (λ a. 0) idle
      (omega arith) (omega arith) (inl refl) (omega arith) (omega arith)

-- a thousand characters from address 64 on
abbrev long_data : Memory
long_data a = if a == 1064 then 0 else b'x'

long_data-IsString : IsString long_data 64 1000
long_data-IsString = record { body = λ i h. ground arith; ends = refl }

log_complex-debug_logger_initialize_example :
    (s' : Serial) × (extra : List (ℕ × ℕ)) × (log_complex plain_jems
        (debug_logger_initialize ready_port 1001)
        1001
        log_info
        component_k
        (b'm' ∷ [])
        64
        4096
        long_data
        idle
      ≡ some s')
    × (s'.output
        ≡ bytes (start_text plain_jems log_info component_k (b'm' ∷ []))
          ++ (sent 1000 64 long_data ++ (extra ++ bytes (end_text plain_jems))))
    × (extra ≡ sent 100 964 long_data)
    × ((extra ≡ []) ↔ (1000 ≤ 900))
log_complex-debug_logger_initialize_example =
    log_complex-debug_logger_initialize ready_port 1 ready_port-Drains 1001 (omega arith) plain_jems
      plain_jems-PrintsText log_info component_k (b'm' ∷ []) 1000 64 4096 long_data idle
      (omega arith) (omega arith) long_data-IsString (omega arith) (omega arith) (omega arith)
      (omega arith) (omega arith) (omega arith)

-- a text of one character repeated
abbrev repeated : ℕ → List ℕ
repeated zero = []
repeated (suc n) = b'a' ∷ repeated n

create_json_log_overflow_example :
    64 + 4096
    < (create_json_log plain_jems log_info component_k
        (repeated 4095)
        false
        (plain_jems.init jems_max_level, (64, λ a. 0))).1.0
      + 2
create_json_log_overflow_example =
    create_json_log_overflow plain_jems log_info component_k (repeated 4095) 64 (λ a. 0)
      plain_jems-PrintsValues (omega arith)
