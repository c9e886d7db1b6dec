-- ===== src/DebugLogger/Stream.antt =====
-- What `log_complex` on the logger of the kernel sends to the serial port.
use mirus.Base.{
  ℕ, zero, suc, ◌+◌, ◌-◌, ◌^◌, ◌≤◌, ◌<◌, ◌≡◌, ◌≢◌, ◌↔◌, refl, sym, ap, ◌∙◌, arith, some, List, [],
  ◌++◌, length, ltb, if◌then◌else◌, Bool-cases, inl, inr,
}
use mathlib.Core.List.{append-nil, append_assoc}
use mirus.Libk.{Memory}
use mirus.Libk.Strings.{IsString, strlen_lem}
use mirus.Serial.{Device, Serial}
use mirus.Serial.Wait.{Drains, sent}
use mirus.Logger.{max_log_message_size, LogLevel, Jems, log_stream_data, stream_chunks, log_complex}
use mirus.Logger.Text.{NoNul, bytes}
use mirus.Logger.Message.{
  PrintsText, start_text, start_text-NoNul, end_text, end_text-NoNul, log_stream_start_writers,
  log_stream_end_writers,
}
use mirus.Logger.Chunks.{stream_chunks_end, stream_chunks_step}
use mirus.DebugLogger.{debug_logger_initialize}
use mirus.DebugLogger.Lines.{string_written, buffer_written}

-- the string that is left behind its first characters
IsString-rest : (m : Memory) (p k n : ℕ) → k ≤ n → IsString m p n → IsString m (p + k) (n - k)
IsString-rest m p k n le t =
    let e : p + k + (n - k) ≡ p + n = omega (arith, le) in
    record {
      body = λ i lt.
          let f : p + k + i ≡ p + (k + i) = omega arith in
          rw f (t.body (k + i) (omega (arith, lt, le)));
      ends = rw e (t.ends);
    }

sent_again : (n str : ℕ) (m : Memory) (l : List (ℕ × ℕ)) → 0 < n → sent n str m ++ l ≢ []
sent_again zero str m l h e = absurd (omega (arith, h))
sent_again (suc n) str m l h e = cc e

-- What comes again behind the whole data: after each 900 characters all the rest of them, once more.
abbrev pub rests : (rounds n str : ℕ) → Memory → List (ℕ × ℕ)
rests zero n str m = []
rests (suc rounds) n str m =
    if ltb 900 n then sent (n - 900) (str + 900) m ++ rests rounds (n - 900) (str + 900) m else []

-- the data of a stream as it arrives: whole, and then what comes again
pub record Streamed (rounds n str : ℕ) (m : Memory) (before after : List (ℕ × ℕ)) : Type 0 where
  pub extra : List (ℕ × ℕ)
  pub all : after ≡ before ++ (sent n str m ++ extra)
  pub once : (extra ≡ []) ↔ (n ≤ 900)
  pub again : extra ≡ rests rounds n str m

module _ (device : Device) (bound : ℕ) (drains : Drains bound device) (fuel : ℕ)
    (ready : bound ≤ fuel) where
  stream_chunks-Streamed :
      (rounds n str : ℕ) (m : Memory) (s : Serial)
      → IsString m str n
      → n < fuel
      → n < 2 ^ 32
      → n < rounds
      → (s' : Serial) × (stream_chunks (debug_logger_initialize device fuel) rounds str n m s
          ≡ some s')
        × Streamed rounds n str m s.output s'.output
  unfolding log_stream_data debug_logger_initialize
  stream_chunks-Streamed zero n str m s t short small enough = absurd (omega (arith, enough))
  stream_chunks-Streamed (suc rounds) zero str m s t short small enough = (
    s,
    stream_chunks_end (debug_logger_initialize device fuel) rounds str m s,
    record {
      extra = [];
      all = sym (append-nil s.output);
      once = (λ e. omega arith, λ e. refl);
      again = refl;
    },
  )
  stream_chunks-Streamed (suc rounds) (suc n) str m s t short small enough =
      let logger = debug_logger_initialize device fuel in
      let (s1, wrote, out1) =
        string_written device bound drains fuel ready (suc n) str m s t short small in
      elim (Bool-cases (ltb 900 (suc n))) [
        | inl long ↦
            let le : 900 < suc n = ground (arith, long) in
            let size : (if ltb 900 (suc n) then 900 else suc n) ≡ 900 = rw long refl in
            let step =
              stream_chunks_step logger rounds str (suc n) 900 m s s1 (omega arith) size wrote in
            let (s2, went, st) =
              stream_chunks-Streamed rounds (suc n - 900) (str + 900) m s1
                (IsString-rest m str 900 (suc n) (omega (arith, le)) t) (omega (arith, short))
                (omega (arith, small)) (omega (arith, enough)) in
            let again = sent (suc n - 900) (str + 900) m ++ st.extra in
            (
              s2,
              step ∙ went,
              record {
                extra = again;
                all =
                    st.all
                    ∙ ap (λ o. o ++ again) out1
                    ∙ append_assoc s.output (sent (suc n) str m) again;
                once = (
                  λ e.
                      absurd
                        (sent_again (suc n - 900) (str + 900) m st.extra (omega (arith, le)) e),
                  λ h. absurd (omega (arith, h, le)),
                );
                again =
                    ap (λ l. sent (suc n - 900) (str + 900) m ++ l) (st.again)
                    ∙ rw (rests, long) refl;
              },
            )
        | inr single ↦
            let nothing : suc n - suc n ≡ 0 = omega arith in
            let le : suc n ≤ 900 = ground (arith, single) in
            let size : (if ltb 900 (suc n) then 900 else suc n) ≡ suc n = rw single refl in
            let step =
              stream_chunks_step logger rounds str (suc n) (suc n) m s s1 (omega arith) size
                wrote in
            let (s2, went, st) =
              stream_chunks-Streamed rounds 0 (str + suc n) m s1
                (rw nothing at (IsString-rest m str (suc n) (suc n) (omega arith) t))
                (omega (arith, short)) (omega (arith, small)) (omega (arith, enough)) in
            (
              s2,
              step ∙ ap (λ k. stream_chunks logger rounds (str + suc n) k m s1) nothing ∙ went,
              record {
                extra = st.extra;
                all =
                    st.all
                    ∙ ap (λ o. o ++ st.extra) out1
                    ∙ append_assoc s.output (sent (suc n) str m) st.extra;
                once = (λ e. le, λ e. st.once.1 (omega arith));
                again = st.once.1 (omega arith) ∙ rw (rests, single) refl;
              },
            )
      ]

  module _ (jems : Jems) (prints : PrintsText jems) where
    -- If the transmitter drains within `bound` reads, the emitter prints no `\0`, component,
    -- message and data are texts without one, the data is below 2^32 characters, and both the start
    -- and the end of the object fit with their `\0` into the 4096 bytes of their JSON buffers, then
    -- with fuel beyond the lengths `log_complex` on the logger of the kernel returns, having sent
    -- the start of the object, the whole data, then after each 900 characters of the data all that
    -- is left of it once more, and what `log_stream_end` prints. Nothing is sent again exactly if
    -- the data has at most 900 characters.
    pub log_complex-debug_logger_initialize :
        (level : LogLevel) (component message : List ℕ) (n json_data out : ℕ) (m : Memory)
        (s : Serial)
        → NoNul component
        → NoNul message
        → IsString m json_data n
        → n < fuel
        → n < 2 ^ 32
        → length (start_text jems level component message) < fuel
        → length (end_text jems) < fuel
        → length (start_text jems level component message) < max_log_message_size
        → length (end_text jems) < max_log_message_size
        → (s' : Serial) × (extra : List (ℕ × ℕ)) × (log_complex jems
              (debug_logger_initialize device fuel)
              fuel
              level
              component
              message
              json_data
              out
              m
              s
            ≡ some s')
          × (s'.output
              ≡ s.output
                ++ (bytes (start_text jems level component message)
                    ++ (sent n json_data m ++ (extra ++ bytes (end_text jems)))))
          × (extra ≡ rests fuel n json_data m)
          × ((extra ≡ []) ↔ (n ≤ 900))
    unfolding log_complex debug_logger_initialize
    log_complex-debug_logger_initialize level component message n json_data out m s clean
          message_clean t short small start_short end_short start_fits end_fits =
        let logger = debug_logger_initialize device fuel in
        let start = start_text jems level component message in
        let (s1, wrote1, out1) =
          buffer_written device bound drains fuel ready start out m s
            (start_text-NoNul jems prints level component message clean message_clean) start_short
            (omega (arith, start_fits)) in
        let (s2, wrote2, st) = stream_chunks-Streamed fuel n json_data m s1 t short small short in
        let (s3, wrote3, out3) =
          buffer_written device bound drains fuel ready (end_text jems) out m s2
            (end_text-NoNul jems prints) end_short (omega (arith, end_fits)) in
        let began =
          log_stream_start_writers jems logger level component message out m s start_fits
          ∙ wrote1 in
        let ended = log_stream_end_writers jems logger out m s2 end_fits ∙ wrote3 in
        let measured = strlen_lem fuel n json_data m t short in
        (
          s3,
          st.extra,
          rw (log_complex, began, measured, wrote2) ended,
          out3
              ∙ ap (λ o. o ++ bytes (end_text jems))
                  (st.all ∙ ap (λ o. o ++ (sent n json_data m ++ st.extra)) out1)
              ∙ simp append_assoc,
          st.again,
          st.once,
        )
