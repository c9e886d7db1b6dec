-- ===== src/SerialLog/Ready.antt =====
-- A port that is always ready with a plain emitter, for the tests of what logs.
use mirus.Base.{ℕ, ◌+◌, ◌<◌, ◌≡◌, arith, List, [], ◌∷◌, ◌++◌, length, length-append}
use mirus.Base.Format.{codes}
use mirus.Serial.Ready.{ready_port, ready_port-Drains}
use mirus.Logger.{
  LogLevel, log_debug, log_info, log_warning, log_error, log_fatal, other, remove_newline,
}
use mirus.Logger.Plain.{plain_jems, plain_jems-PrintsText}
use mirus.Logger.Message.{message_line}
use mirus.Pmm.MemoryMap.Plain.{value_arrays, value_arrays-PrintsArrays, one_letter}
use mirus.SerialLog.{Output}
use mirus.SerialLog.Quiet.{Works}

abbrev pub ready_output : Output
ready_output = record {
  jems = plain_jems;
  arrays = value_arrays;
  snprintf_ = one_letter;
  vsnprintf_ = one_letter;
  device = ready_port;
  fuel = 100;
  out = 4096;
  buf = 32;
  memory = λ a. 0;
}

-- what the emitter prints after the component, with the message "n"
abbrev after_component : List ℕ
after_component = b'm' ∷ b'e' ∷ b's' ∷ b's' ∷ b'a' ∷ b'g' ∷ b'e' ∷ b'n' ∷ b'}' ∷ []

plain_length :
    (component : List ℕ)
    → length ((component ++ after_component) ++ b'\n' ∷ []) ≡ length component + 10
plain_length component = omega (
  arith,
  length-append (component ++ after_component) (b'\n' ∷ []),
  length-append component after_component,
)

plain_line :
    (level : LogLevel) (component : List ℕ)
    → length (message_line plain_jems level component (b'n' ∷ [])) < 50 + length component
plain_line log_debug component = omega (arith, plain_length component)
plain_line log_info component = omega (arith, plain_length component)
plain_line log_warning component = omega (arith, plain_length component)
plain_line log_error component = omega (arith, plain_length component)
plain_line log_fatal component = omega (arith, plain_length component)
plain_line other component = omega (arith, plain_length component)

pub ready_output-Works : Works ready_output
unfolding remove_newline
ready_output-Works = record {
  bound = 1;
  drains = ready_port-Drains;
  ready = omega arith;
  two = omega arith;
  prints = plain_jems-PrintsText;
  prints_arrays = value_arrays-PrintsArrays;
  snprintf_clean = λ f args size. omega arith;
  vsnprintf_clean = λ f args size. omega arith;
  short =
      λ l short. let line = plain_line l.level (codes l.component) in ground (arith, line, short);
  map_short = omega arith;
  end_short = omega arith;
  fits =
      λ l short. let line = plain_line l.level (codes l.component) in ground (arith, line, short);
  snprintf_short = λ f args. omega arith;
  map_fits = omega arith;
  end_fits = omega arith;
}
