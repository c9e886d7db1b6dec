-- ===== src/Logger.antt =====
-- libs/logger/src/logger.c and libs/logger/include/logger.h. Texts are lists of characters without
-- their `\0`; what goes to a writer is an address in a memory of bytes, as in C. The local buffers
-- stand at an address that is an argument, and the memory after a call is that before it, since
-- they are given up. A text that does not fit into its local buffer ends the call in `none`, as
-- does a writer that never returns. The JSON emitter is an argument, as is the text that
-- `vsnprintf_` leaves.
pub mod Text
pub mod Message
pub mod Chunks
pub mod Overflow
pub mod Plain
use mirus.Base.{
  ℕ, zero, suc, ◌+◌, ◌-◌, Bool, true, false, ◌&&◌, Option, none, some, List, [], ◌∷◌, ltb, ◌==◌,
  if◌then◌else◌, length, update,
}
use mirus.Libk.{Memory, strlen}

abbrev pub max_log_message_size : ℕ
max_log_message_size = 4096

abbrev pub jems_max_level : ℕ
jems_max_level = 5

-- `other` is any value that is no enumerator.
pub data LogLevel : Type 0 where
  log_debug log_info log_warning log_error log_fatal other : LogLevel

abbrev pub log_level_to_string : LogLevel → List ℕ
log_level_to_string log_debug = b'D' ∷ b'E' ∷ b'B' ∷ b'U' ∷ b'G' ∷ []
log_level_to_string log_info = b'I' ∷ b'N' ∷ b'F' ∷ b'O' ∷ []
log_level_to_string log_warning = b'W' ∷ b'A' ∷ b'R' ∷ b'N' ∷ b'I' ∷ b'N' ∷ b'G' ∷ []
log_level_to_string log_error = b'E' ∷ b'R' ∷ b'R' ∷ b'O' ∷ b'R' ∷ []
log_level_to_string log_fatal = b'F' ∷ b'A' ∷ b'T' ∷ b'A' ∷ b'L' ∷ []
log_level_to_string other = b'U' ∷ b'N' ∷ b'K' ∷ b'N' ∷ b'O' ∷ b'W' ∷ b'N' ∷ []

abbrev pub level_key : List ℕ
level_key = b'l' ∷ b'e' ∷ b'v' ∷ b'e' ∷ b'l' ∷ []

abbrev pub component_key : List ℕ
component_key = b'c' ∷ b'o' ∷ b'm' ∷ b'p' ∷ b'o' ∷ b'n' ∷ b'e' ∷ b'n' ∷ b't' ∷ []

abbrev pub message_key : List ℕ
message_key = b'm' ∷ b'e' ∷ b's' ∷ b's' ∷ b'a' ∷ b'g' ∷ b'e' ∷ []

abbrev pub data_key : List ℕ
data_key = b'd' ∷ b'a' ∷ b't' ∷ b'a' ∷ []

-- The JSON emitter: each call gives the characters that it passes to its writer in turn.
pub record Jems : Type 1 where
  pub State : Type 0
  pub init : (max_level : ℕ) → State
  pub object_open : State → List ℕ × State
  pub object_close : State → List ℕ × State
  pub key_string : (key value : List ℕ) → State → List ℕ × State
  pub key_literal : (key literal : List ℕ) (n_bytes : ℕ) → State → List ℕ × State

-- A writer gets the address of a text; it may fail to return.
abbrev pub Writer : Type 0 → Type 0
Writer W = (str : ℕ) → Memory → W → Option W

pub record Logger (W : Type 0) : Type 0 where
  pub writers : ℕ → Writer W
  pub num_writers : ℕ

abbrev pub log_init : {W : Type 0} → (ℕ → Writer W) → ℕ → Logger W
log_init writers num_writers = record { writers = writers; num_writers = num_writers }

-- the pointer into the buffer, and the memory
abbrev pub Buffer : Type 0
Buffer = ℕ × Memory

pub jems_writer : (ch : ℕ) → Buffer → Buffer
jems_writer ch (ptr, m) = (ptr + 1, update m ptr ch)

pub emit : List ℕ → Buffer → Buffer
unfolding jems_writer
emit [] b = b
emit (c ∷ cs) b = emit cs (jems_writer c b)

-- One call of the emitter, with the writer called for each character.
pub jems_call : {S : Type 0} → (S → List ℕ × S) → S × Buffer → S × Buffer
unfolding emit
jems_call op (s, b) = ((op s).1, emit (op s).0 b)

-- the character at an index, with the `\0` behind the text
abbrev pub char_at : List ℕ → ℕ → ℕ
char_at [] i = 0
char_at (c ∷ cs) zero = c
char_at (c ∷ cs) (suc i) = char_at cs i

-- the text before a `\0` that is written at an index
abbrev pub cut : ℕ → List ℕ → List ℕ
cut i [] = []
cut zero (c ∷ cs) = []
cut (suc i) (c ∷ cs) = c ∷ cut i cs

unfoldable pub remove_newline : List ℕ → List ℕ
remove_newline message =
    let msg_len = length message in
    if ltb 0 msg_len && (char_at message (msg_len - 1) == b'\n')
    then cut (msg_len - 1) message
    else message

-- `for (int i = 0; i < logger->num_writers; i++)`, with `rounds` writers left
unfoldable pub call_writers :
    {W : Type 0} → (rounds i : ℕ) → (ℕ → Writer W) → (str : ℕ) → Memory → W → Option W
call_writers zero i writers str m w = some w
call_writers (suc rounds) i writers str m w = elim (writers i str m w) [
  | none ↦ none
  | some w' ↦ call_writers rounds (i + 1) writers str m w'
]

unfoldable pub log_stream_data : {W : Type 0} → Logger W → (str len : ℕ) → Memory → W → Option W
unfolding call_writers
log_stream_data logger str len m w = call_writers logger.num_writers 0 logger.writers str m w

-- The loop of `log_complex`.
unfoldable pub stream_chunks :
    {W : Type 0} → Logger W → (fuel data_ptr remaining : ℕ) → Memory → W → Option W
unfolding log_stream_data
stream_chunks logger zero data_ptr remaining m w = none
stream_chunks logger (suc fuel) data_ptr remaining m w =
    let chunk_size = if ltb 900 remaining then 900 else remaining in
    let rest : Option _ = elim (log_stream_data logger data_ptr chunk_size m w) [
      | none ↦ none
      | some w' ↦ stream_chunks logger fuel (data_ptr + chunk_size) (remaining - chunk_size) m w'
    ] in
    if ltb 0 remaining then rest else some w

module _ (jems : Jems) where
  pub create_json_log :
      LogLevel
      → (component message : List ℕ) (include_data : Bool) → jems.State × Buffer
      → jems.State × Buffer
  unfolding jems_call
  create_json_log level component message include_data b0 =
      let b1 = jems_call jems.object_open b0 in
      let b2 = jems_call (jems.key_string level_key (log_level_to_string level)) b1 in
      let b3 = jems_call (jems.key_string component_key component) b2 in
      let b4 = jems_call (jems.key_string message_key message) b3 in
      let b5 = if include_data then jems_call (jems.key_literal data_key [] 0) b4 else b4 in
      jems_call jems.object_close b5

  module _ {W : Type 0} (logger : Logger W) where
    -- the line break and the `\0`, then the writers; `none` if the two do not both fit into
    -- `json_output` any more, since what such a write does is not defined
    abbrev pub finish_line : (out : ℕ) → jems.State × Buffer → W → Option W
    unfolding call_writers
    finish_line out (s, (ptr, m)) w =
        let rest =
          call_writers logger.num_writers 0 logger.writers out
            (update (update m ptr b'\n') (ptr + 1) 0) w in
        if ltb (out + max_log_message_size) (ptr + 2) then none else rest

    -- `formatted` gives what `vsnprintf_` leaves in a buffer of a size; `out` is `json_output`.
    pub log_message :
        LogLevel → (component : List ℕ) (formatted : ℕ → List ℕ) (out : ℕ) → Memory → W → Option W
    unfolding create_json_log remove_newline call_writers
    log_message level component formatted out m w =
        let message = remove_newline (formatted max_log_message_size) in
        finish_line out
          (create_json_log level component message false (jems.init jems_max_level, (out, m))) w

    -- the `\0` behind the start of a stream, with the same bound
    abbrev pub finish_start : (out : ℕ) → jems.State × Buffer → W → Option W
    unfolding call_writers
    finish_start out (s, (ptr, m)) w =
        let rest = call_writers logger.num_writers 0 logger.writers out (update m ptr 0) w in
        if ltb (out + max_log_message_size) (ptr + 1) then none else rest

    pub log_stream_start : LogLevel → (component message : List ℕ) (out : ℕ) → Memory → W → Option W
    unfolding jems_call call_writers
    log_stream_start level component message out m w =
        let b1 = jems_call jems.object_open (jems.init jems_max_level, (out, m)) in
        let b2 = jems_call (jems.key_string level_key (log_level_to_string level)) b1 in
        let b3 = jems_call (jems.key_string component_key component) b2 in
        let b4 = jems_call (jems.key_string message_key message) b3 in
        let b5 = jems_call (jems.key_literal data_key [] 0) b4 in finish_start out b5 w

    pub log_stream_end : (out : ℕ) → Memory → W → Option W
    unfolding jems_call call_writers
    log_stream_end out m w =
        finish_line out (jems_call jems.object_close (jems.init jems_max_level, (out, m))) w

    unfoldable pub log_complex :
        (fuel : ℕ)
        → LogLevel
        → (component message : List ℕ) (json_data out : ℕ) → Memory
        → W
        → Option W
    unfolding log_stream_start stream_chunks log_stream_end
    log_complex fuel level component message json_data out m w =
        elim (log_stream_start level component message out m w) [
          | none ↦ none
          | some w1 ↦ elim (strlen fuel json_data m) [
            | none ↦ none
            | some len ↦ elim (stream_chunks logger fuel json_data len m w1) [
              | none ↦ none
              | some w2 ↦ log_stream_end out m w2
            ]
          ]
        ]
