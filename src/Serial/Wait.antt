-- ===== src/Serial/Wait.antt =====
-- hal/arch-x86_64/io/serial.c with a device that becomes ready again and again.
use mirus.Base.{
  ℕ, zero, suc, ◌+◌, ◌%◌, ◌^◌, ◌≤◌, ◌<◌, ◌≡◌, ◌≢◌, refl, sym, ap, ◌∙◌, arith, true, false, some,
  List, [], ◌∷◌, ◌++◌, ltb, ◌==◌, Bool-cases, inl, inr,
}
use mathlib.Core.List.{append-nil, append_assoc}
use mirus.Base.Int.{ℤ}
use mirus.Libk.{Memory}
use mirus.Libk.Strings.{IsString, strlen_lem}
use mirus.Libk.Itoa.Reading.{Printable, magnitude, parse, parse-itoa}
use Prim.Native.Nat.{bit_and}
use mirus.Serial.{
  com1, Device, Serial, serial_is_transmit_empty, wait, write_byte, serial_write_char, write_from,
  serial_write_string, serial_write_int,
}

-- In any `bound` reads of the line status in a row the transmitter is empty at least once.
abbrev pub Drains : (bound : ℕ) → Device → Type 0
Drains bound device =
    (t : ℕ) → (k : ℕ) × (k < bound) × (bit_and (device (t + k) (com1 + 5) % 256) 0x20 ≢ 0)

-- the bytes from `p` on, as writes to the data port
abbrev pub sent : (n p : ℕ) → Memory → List (ℕ × ℕ)
sent zero p m = []
sent (suc n) p m = (com1, m p % 256) ∷ sent n (p + 1) m

module _ (device : Device) where
  wait_lem :
      (fuel k : ℕ) (s : Serial)
      → k < fuel
      → bit_and (device (s.clock + k) (com1 + 5) % 256) 0x20 ≢ 0
      → (s' : Serial) × (wait device fuel (serial_is_transmit_empty device) s ≡ some s')
        × (s'.output ≡ s.output)
  unfolding wait serial_is_transmit_empty
  wait_lem zero k s h ready = absurd (omega (arith, h))
  wait_lem (suc fuel) zero s h ready =
      let now : s.clock + 0 ≡ s.clock = omega arith in
      let free : (bit_and (device s.clock (com1 + 5) % 256) 0x20 == 0) ≡ false =
        ground (arith, rw now at ready) in
      (record s { clock = s.clock + 1 }, rw free refl, refl)
  wait_lem (suc fuel) (suc k) s h ready =
      elim (Bool-cases (bit_and (device s.clock (com1 + 5) % 256) 0x20 == 0)) [
        | inl busy ↦
            let later : s.clock + suc k ≡ s.clock + 1 + k = omega arith in
            rw busy (
              wait_lem fuel k (record s { clock = s.clock + 1 }) (omega (arith, h))
                (rw later at ready))
        | inr free ↦ (record s { clock = s.clock + 1 }, rw free refl, refl)
      ]

  module _ (bound : ℕ) (drains : Drains bound device) where
    -- If the transmitter drains within `bound` reads of the line status, then with that much fuel
    -- `serial_write_char` returns, having written the character's byte to the data port.
    pub serial_write_char_lem :
        (fuel c : ℕ) (s : Serial)
        → bound ≤ fuel
        → (s' : Serial) × (serial_write_char device fuel c s ≡ some s')
          × (s'.output ≡ s.output ++ (com1, c % 256) ∷ [])
    unfolding serial_write_char
    serial_write_char_lem fuel c s h =
        let (k, within, ready) = drains s.clock in
        let (s', ended, same) = wait_lem fuel k s (omega (arith, within, h)) ready in
        (
          write_byte com1 c s',
          rw (serial_write_char, ended) refl,
          ap (λ o. o ++ (com1, c % 256) ∷ []) same,
        )

    write_from_lem :
        (rounds fuel i n k str : ℕ) (m : Memory) (s : Serial)
        → IsString m str n
        → n < fuel
        → n < 2 ^ 32
        → bound ≤ fuel
        → i + k ≡ n
        → k < rounds
        → (s' : Serial) × (write_from device rounds fuel i str m s ≡ some s')
          × (s'.output ≡ s.output ++ sent k (str + i) m)
    unfolding write_from
    write_from_lem zero fuel i n k str m s t l small b e f = absurd (omega (arith, f))
    write_from_lem (suc rounds) fuel i n zero str m s t l small b e f =
        let done : ltb i n ≡ false = ground arith in
        (s, rw (write_from, strlen_lem fuel n str m t l, done) refl, sym (append-nil s.output))
    write_from_lem (suc rounds) fuel i n (suc k) str m s t l small b e f =
        let more : ltb i n ≡ true = ground arith in
        let (s1, wrote, out1) = serial_write_char_lem fuel (m (str + i)) s b in
        let (s2, rest, out2) =
          write_from_lem rounds fuel (i + 1) n k str m s1 t l small b (omega (arith, e))
            (omega (arith, f)) in
        let shift : str + (i + 1) ≡ str + i + 1 = omega arith in
        let no_wrap : (i + 1) % 2 ^ 32 ≡ i + 1 = omega (arith, e, small) in
        (
          s2,
          rw (write_from, strlen_lem fuel n str m t l, more, wrote, no_wrap) rest,
          out2
              ∙ ap (λ o. o ++ sent k (str + (i + 1)) m) out1
              ∙ append_assoc s.output ((com1, m (str + i) % 256) ∷ []) (sent k (str + (i + 1)) m)
              ∙ ap (λ p. s.output ++ (com1, m (str + i) % 256) ∷ sent k p m) shift,
        )

    -- If the transmitter drains within `bound` reads of the line status, then with that much fuel,
    -- and more than the length of the string, which is below 2^32, `serial_write_string` returns,
    -- having written exactly the bytes of the string to the data port in their order.
    pub serial_write_string_lem :
        (fuel n str : ℕ) (m : Memory) (s : Serial)
        → IsString m str n
        → n < fuel
        → n < 2 ^ 32
        → bound ≤ fuel
        → (s' : Serial) × (serial_write_string device fuel str m s ≡ some s')
          × (s'.output ≡ s.output ++ sent n str m)
    unfolding serial_write_string
    serial_write_string_lem fuel n str m s t l small b =
        let start : str + 0 ≡ str = omega arith in
        rw start at (write_from_lem fuel fuel 0 n n str m s t l small b (omega arith) l)

    -- If the transmitter drains within `bound` reads of the line status, then for every `int` but
    -- the lowest one whose magnitude is below 2^32 - 1, `serial_write_int` returns, given fuel
    -- above the magnitude plus one, having written to the data port just the bytes of a text that
    -- reads back as the number.
    pub serial_write_int_lem :
        (fuel : ℕ) (i : ℤ) (str : ℕ) (m : Memory) (s : Serial)
        → Printable i 10
        → magnitude i + 1 < fuel
        → magnitude i + 1 < 2 ^ 32
        → bound ≤ fuel
        → (s' : Serial) × (k : ℕ) × (text : Memory) × (serial_write_int device fuel i str m s
            ≡ some s')
          × (s'.output ≡ s.output ++ sent k str text)
          × (parse 10 k str text ≡ i)
    unfolding serial_write_int
    serial_write_int_lem fuel i str m s fits enough small b =
        let (k, m', short, printed, string, number, outside) =
          parse-itoa fuel i str 10 m fits enough in
        let (s', wrote, out) =
          serial_write_string_lem fuel k str m' s string (omega (arith, short, enough))
            (omega (arith, short, small)) b in
        (s', k, m', rw (serial_write_int, printed) wrote, out, number)
