-- ===== src/Logger/Message.antt =====
-- The JSON lines of logger.c, and what reaches the writers.
use mirus.Base.{
  ℕ, ◌+◌, ◌<◌, ◌≡◌, refl, ap, ◌∙◌, arith, ltb, false, List, [], ◌∷◌, ◌++◌, length, length-append,
}
use mirus.Libk.{Memory}
use mirus.Logger.{
  max_log_message_size, jems_max_level, LogLevel, log_debug, log_info, log_warning, log_error,
  log_fatal, other, log_level_to_string, level_key, component_key, message_key, data_key, Jems,
  Logger, Buffer, jems_call, remove_newline, call_writers, create_json_log, finish_line,
  finish_start, log_message, log_stream_start, log_stream_end,
}
use mirus.Logger.Text.{NoNul, NoNul-append, store, emit-store, store-append, store_line}

module _ {S : Type 0} where
  -- the text that calls of the emitter print in a row
  abbrev pub render : List (S → List ℕ × S) → S → List ℕ
  render [] s = []
  render (op ∷ ops) s = (op s).0 ++ render ops (op s).1

  abbrev pub calls : List (S → List ℕ × S) → S × Buffer → S × Buffer
  calls [] b = b
  calls (op ∷ ops) b = calls ops (jems_call op b)

  pub calls-store :
      (ops : List (S → List ℕ × S)) (s : S) (p : ℕ) (m : Memory)
      → (calls ops (s, (p, m))).1 ≡ (p + length (render ops s), store m p (render ops s))
  unfolding jems_call
  calls-store [] s p m = let e : p + 0 ≡ p = omega arith in rw e refl
  calls-store (op ∷ ops) s p m =
      let cs = (op s).0 in
      let ds = render ops (op s).1 in
      let e : p + length (cs ++ ds) ≡ p + length cs + length ds =
        omega (arith, length-append cs ds) in
      ap (λ b. (calls ops ((op s).1, b)).1) (emit-store cs p m)
      ∙ calls-store ops (op s).1 (p + length cs) (store m p cs)
      ∙ rw (e, store-append cs ds p m) refl

-- The emitter prints no `\0` for texts without one.
pub record PrintsText (jems : Jems) : Type 0 where
  pub object_open : (s : jems.State) → NoNul (jems.object_open s).0
  pub object_close : (s : jems.State) → NoNul (jems.object_close s).0
  pub key_string :
      (key value : List ℕ) (s : jems.State)
      → NoNul key
      → NoNul value
      → NoNul (jems.key_string key value s).0
  pub key_literal :
      (key : List ℕ) (s : jems.State) → NoNul key → NoNul (jems.key_literal key [] 0 s).0

log_level_to_string-NoNul : (level : LogLevel) → NoNul (log_level_to_string level)
log_level_to_string-NoNul log_debug = omega arith
log_level_to_string-NoNul log_info = omega arith
log_level_to_string-NoNul log_warning = omega arith
log_level_to_string-NoNul log_error = omega arith
log_level_to_string-NoNul log_fatal = omega arith
log_level_to_string-NoNul other = omega arith

module _ (jems : Jems) where
  abbrev start_ops :
      LogLevel → (component message : List ℕ) → List (jems.State → List ℕ × jems.State)
  start_ops level component message =
      jems.object_open
      ∷ jems.key_string level_key (log_level_to_string level)
      ∷ jems.key_string component_key component
      ∷ jems.key_string message_key message
      ∷ []

  -- the line of `log_message`
  abbrev pub message_line : LogLevel → (component message : List ℕ) → List ℕ
  message_line level component message =
      render (start_ops level component message ++ jems.object_close ∷ [])
        (jems.init jems_max_level)
      ++ b'\n' ∷ []

  -- what `log_stream_start` and `log_stream_end` print
  abbrev pub start_text : LogLevel → (component message : List ℕ) → List ℕ
  start_text level component message =
      render (start_ops level component message ++ jems.key_literal data_key [] 0 ∷ [])
        (jems.init jems_max_level)

  abbrev pub end_text : List ℕ
  end_text = (jems.object_close (jems.init jems_max_level)).0 ++ b'\n' ∷ []

  module _ (prints : PrintsText jems) (level : LogLevel) (component message : List ℕ)
      (component_clean : NoNul component) (message_clean : NoNul message) where
    -- the calls of `start_ops` and one more
    start_ops-NoNul :
        (op : jems.State → List ℕ × jems.State)
        → ((s : jems.State) → NoNul (op s).0)
        → (s : jems.State) → NoNul (render (start_ops level component message ++ op ∷ []) s)
    start_ops-NoNul op last s =
        let o1 = jems.object_open s in
        let level_text = log_level_to_string level in
        let o2 = jems.key_string level_key level_text o1.1 in
        let o3 = jems.key_string component_key component o2.1 in
        let o4 = jems.key_string message_key message o3.1 in
        let p2 =
          prints.key_string level_key level_text o1.1 (omega arith)
            (log_level_to_string-NoNul level) in
        let p3 = prints.key_string component_key component o2.1 (omega arith) component_clean in
        let p4 = prints.key_string message_key message o3.1 (omega arith) message_clean in
        NoNul-append o1.0 _ (prints.object_open s) (
          NoNul-append o2.0 _ p2 (
            NoNul-append o3.0 _ p3
              (NoNul-append o4.0 _ p4 (NoNul-append (op o4.1).0 [] (last o4.1) tt))))

    pub message_line-NoNul : NoNul (message_line level component message)
    message_line-NoNul =
        NoNul-append _ (b'\n' ∷ [])
          (start_ops-NoNul jems.object_close prints.object_close (jems.init jems_max_level))
          (omega arith)

    pub start_text-NoNul : NoNul (start_text level component message)
    start_text-NoNul =
        start_ops-NoNul (jems.key_literal data_key [] 0)
          (λ s. prints.key_literal data_key s (omega arith)) (jems.init jems_max_level)

  pub end_text-NoNul : PrintsText jems → NoNul end_text
  end_text-NoNul prints =
      NoNul-append (jems.object_close (jems.init jems_max_level)).0 (b'\n' ∷ [])
        (prints.object_close (jems.init jems_max_level)) (omega arith)

  module _ {W : Type 0} (logger : Logger W) where
    -- Every writer gets the buffer with the whole line and a `\0` behind it, if these fit.
    pub log_message_writers :
        (level : LogLevel) (component message : List ℕ) (formatted : ℕ → List ℕ) (out : ℕ)
        (m : Memory) (w : W)
        → remove_newline (formatted max_log_message_size) ≡ message
        → length (message_line level component message) < max_log_message_size
        → log_message jems logger level component formatted out m w
          ≡ call_writers logger.num_writers 0 logger.writers out
              (store m out (message_line level component message ++ 0 ∷ []))
              w
    unfolding log_message create_json_log
    log_message_writers level component message formatted out m w same fits =
        let ops = start_ops level component message ++ jems.object_close ∷ [] in
        let s = jems.init jems_max_level in
        let inside : ltb (out + max_log_message_size) (out + length (render ops s) + 2) ≡ false =
          ground (arith, fits, length-append (render ops s) (b'\n' ∷ [])) in
        rw same (
          ap (λ b. finish_line jems logger out (s, b) w) (calls-store ops s out m)
          ∙ rw (inside, store_line (render ops s) b'\n' out m) refl)

    pub log_stream_start_writers :
        (level : LogLevel) (component message : List ℕ) (out : ℕ) (m : Memory) (w : W)
        → length (start_text level component message) < max_log_message_size
        → log_stream_start jems logger level component message out m w
          ≡ call_writers logger.num_writers 0 logger.writers out
              (store m out (start_text level component message ++ 0 ∷ []))
              w
    unfolding log_stream_start
    log_stream_start_writers level component message out m w fits =
        let ops = start_ops level component message ++ jems.key_literal data_key [] 0 ∷ [] in
        let s = jems.init jems_max_level in
        let inside : ltb (out + max_log_message_size) (out + length (render ops s) + 1) ≡ false =
          ground (arith, fits) in
        ap (λ b. finish_start jems logger out (s, b) w) (calls-store ops s out m)
        ∙ rw (inside, store-append (render ops s) (0 ∷ []) out m) refl

    pub log_stream_end_writers :
        (out : ℕ) (m : Memory) (w : W)
        → length end_text < max_log_message_size
        → log_stream_end jems logger out m w
          ≡ call_writers logger.num_writers 0 logger.writers out
              (store m out (end_text ++ 0 ∷ []))
              w
    unfolding log_stream_end
    log_stream_end_writers out m w fits =
        let s = jems.init jems_max_level in
        let cs = (jems.object_close s).0 in
        let inside : ltb (out + max_log_message_size) (out + length cs + 2) ≡ false =
          ground (arith, fits, length-append cs (b'\n' ∷ [])) in
        ap (λ b. finish_line jems logger out (s, b) w) (emit-store cs out m)
        ∙ rw (inside, store_line cs b'\n' out m) refl
