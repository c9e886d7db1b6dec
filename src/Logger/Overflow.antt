-- ===== src/Logger/Overflow.antt =====
-- The buffer for the JSON text in logger.c, which is as long as that for the message.
use mirus.Base.{ℕ, ◌+◌, ◌≤◌, ◌<◌, ap, arith, false, List, [], ◌∷◌, ◌++◌, length, length-append}
use mirus.Libk.{Memory}
use mirus.Logger.{
  max_log_message_size, jems_max_level, LogLevel, log_debug, log_info, log_warning, log_error,
  log_fatal, other, log_level_to_string, level_key, component_key, message_key, Jems,
  create_json_log,
}
use mirus.Logger.Message.{calls-store}

-- The emitter prints at least the characters of each value.
abbrev pub PrintsValues : Jems → Type 0
PrintsValues jems =
    (key value : List ℕ) (s : jems.State) → length value ≤ length (jems.key_string key value s).0

level_length : (level : LogLevel) → 4 ≤ length (log_level_to_string level)
level_length log_debug = omega arith
level_length log_info = omega arith
level_length log_warning = omega arith
level_length log_error = omega arith
level_length log_fatal = omega arith
level_length other = omega arith

-- For an emitter that prints all of each value, a message of 4091 characters or more, which its
-- buffer of 4096 holds up to 4095, takes the pointer of `create_json_log` so far that the line
-- break and the `\0` of `log_message` do not both fit into the JSON buffer of 4096.
pub create_json_log_overflow :
    (jems : Jems) (level : LogLevel) (component message : List ℕ) (out : ℕ) (m : Memory)
    → PrintsValues jems
    → 4091 ≤ length message
    → out + max_log_message_size
      < (create_json_log jems level component message false
          (jems.init jems_max_level, (out, m))).1.0
        + 2
unfolding create_json_log
create_json_log_overflow jems level component message out m prints long =
    let s = jems.init jems_max_level in
    let level_text = log_level_to_string level in
    let o1 = jems.object_open s in
    let o2 = jems.key_string level_key level_text o1.1 in
    let o3 = jems.key_string component_key component o2.1 in
    let o4 = jems.key_string message_key message o3.1 in
    let o5 = jems.object_close o4.1 in
    let ops =
      jems.object_open
      ∷ jems.key_string level_key level_text
      ∷ jems.key_string component_key component
      ∷ jems.key_string message_key message
      ∷ jems.object_close
      ∷ [] in
    let e = ap (λ b. b.0) (calls-store ops s out m) in
    omega (
      arith,
      e,
      long,
      prints level_key level_text o1.1,
      prints message_key message o3.1,
      level_length level,
      length-append o1.0 (o2.0 ++ (o3.0 ++ (o4.0 ++ (o5.0 ++ [])))),
      length-append o2.0 (o3.0 ++ (o4.0 ++ (o5.0 ++ []))),
      length-append o3.0 (o4.0 ++ (o5.0 ++ [])),
      length-append o4.0 (o5.0 ++ []),
    )
