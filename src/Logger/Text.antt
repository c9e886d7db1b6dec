-- ===== src/Logger/Text.antt =====
-- Texts that logger.c writes to its buffers, character by character.
use mirus.Base.{
  ℕ, zero, suc, ◌+◌, ◌-◌, ◌%◌, ◌<◌, ◌≡◌, ◌≢◌, refl, sym, ap, ◌∙◌, arith, inl, inr, List, [], ◌∷◌,
  ◌++◌, ◌==◌, ltb, if◌then◌else◌, length, update, length-append, Bool-cases, inl, inr, ◌⊎◌, ◌≢◌,
  true,
}
use mathlib.Core.List.{append_assoc}
use mirus.Libk.{Memory}
use mirus.Libk.Strings.{IsString}
use mirus.Serial.{com1}
use mirus.Serial.Wait.{sent}
use mirus.Logger.{jems_writer, emit, char_at, cut, remove_newline}

-- no `\0` among the characters
abbrev pub NoNul : List ℕ → Type 0
NoNul [] = Unit
NoNul (c ∷ cs) = (c ≢ 0) × NoNul cs

-- the writes that send these characters to the data port
abbrev pub bytes : List ℕ → List (ℕ × ℕ)
bytes [] = []
bytes (c ∷ cs) = (com1, c % 256) ∷ bytes cs

abbrev pub store : Memory → ℕ → List ℕ → Memory
store m p [] = m
store m p (c ∷ cs) = store (update m p c) (p + 1) cs

pub emit-store : (cs : List ℕ) (p : ℕ) (m : Memory) → emit cs (p, m) ≡ (p + length cs, store m p cs)
unfolding emit jems_writer
emit-store [] p m = let e : p + 0 ≡ p = omega arith in rw e refl
emit-store (c ∷ cs) p m =
    let e : p + 1 + length cs ≡ p + suc (length cs) = omega arith in
    rw e at (emit-store cs (p + 1) (update m p c))

pub store-append :
    (cs ds : List ℕ) (p : ℕ) (m : Memory)
    → store (store m p cs) (p + length cs) ds ≡ store m p (cs ++ ds)
store-append [] ds p m = let e : p + 0 ≡ p = omega arith in rw e refl
store-append (c ∷ cs) ds p m =
    let e : p + 1 + length cs ≡ p + suc (length cs) = omega arith in
    rw e at (store-append cs ds (p + 1) (update m p c))

-- a text, one more character, and the `\0`
pub store_line :
    (cs : List ℕ) (c p : ℕ) (m : Memory)
    → update (update (store m p cs) (p + length cs) c) (p + length cs + 1) 0
      ≡ store m p ((cs ++ c ∷ []) ++ 0 ∷ [])
store_line cs c p m =
    store-append cs (c ∷ 0 ∷ []) p m
    ∙ ap (λ l. store m p l) (sym (append_assoc cs (c ∷ []) (0 ∷ [])))

pub store_below : (cs : List ℕ) (p x : ℕ) (m : Memory) → x < p → store m p cs x ≡ m x
store_below [] p x m h = refl
store_below (c ∷ cs) p x m h =
    store_below cs (p + 1) x (update m p c) (omega (arith, h)) ∙ ground (arith, h)

-- A string with one more character in front.
string_longer :
    (m : Memory) (p n : ℕ) → m p ≢ 0 → IsString m (p + 1) n → (i : ℕ) → i < suc n → m (p + i) ≢ 0
string_longer m p n first t zero lt = let e : p + 0 ≡ p = omega arith in rw e first
string_longer m p n first t (suc i) lt =
    let e : p + suc i ≡ p + 1 + i = omega arith in rw e (t.body i (omega (arith, lt)))

pub store-IsString :
    (cs : List ℕ) (p : ℕ) (m : Memory)
    → NoNul cs
    → IsString (store m p (cs ++ 0 ∷ [])) p (length cs)
store-IsString [] p m h = record { body = λ i lt. absurd (omega (arith, lt)); ends = ground arith }
store-IsString (c ∷ cs) p m (here, rest) =
    let t = store-IsString cs (p + 1) (update m p c) rest in
    let first = store_below (cs ++ 0 ∷ []) (p + 1) p (update m p c) (omega arith) in
    let all = store (update m p c) (p + 1) (cs ++ 0 ∷ []) in
    let value : all p ≡ c = first ∙ ground arith in
    let e : p + suc (length cs) ≡ p + 1 + length cs = omega arith in
    record { body = string_longer all p (length cs) (rw value here) t; ends = rw e (t.ends) }

pub store-sent :
    (cs ds : List ℕ) (p : ℕ) (m : Memory) → sent (length cs) p (store m p (cs ++ ds)) ≡ bytes cs
store-sent [] ds p m = refl
store-sent (c ∷ cs) ds p m =
    let first : store (update m p c) (p + 1) (cs ++ ds) p ≡ c =
      store_below (cs ++ ds) (p + 1) p (update m p c) (omega arith) ∙ ground arith in
    rw (first, store-sent cs ds (p + 1) (update m p c)) refl

pub bytes-append : (cs ds : List ℕ) → bytes (cs ++ ds) ≡ bytes cs ++ bytes ds
bytes-append [] ds = refl
bytes-append (c ∷ cs) ds = rw (bytes-append cs ds) refl

char_at_end : (cs : List ℕ) (c : ℕ) → char_at (cs ++ c ∷ []) (length cs) ≡ c
char_at_end [] c = refl
char_at_end (d ∷ cs) c = char_at_end cs c

cut_end : (cs : List ℕ) (c : ℕ) → cut (length cs) (cs ++ c ∷ []) ≡ cs
cut_end [] c = refl
cut_end (d ∷ cs) c = ap (λ x. d ∷ x) (cut_end cs c)

-- `remove_newline` takes a line break off the end of a text, and changes no text that ends in
-- another character.
pub remove_newline_lem :
    (cs : List ℕ) (c : ℕ)
    → remove_newline (cs ++ c ∷ []) ≡ (if c == b'\n' then cs else cs ++ c ∷ [])
unfolding remove_newline
remove_newline_lem cs c =
    let l : length (cs ++ c ∷ []) ≡ suc (length cs) = omega (arith, length-append cs (c ∷ [])) in
    let e : suc (length cs) - 1 ≡ length cs = omega arith in
    let some_char : ltb 0 (suc (length cs)) ≡ true = ground arith in
    rw (l, e, some_char, char_at_end cs c, cut_end cs c) refl

-- A text and its message: without the line break at its end, or the same if it has none there.
abbrev pub Trimmed : (text message : List ℕ) → Type 0
Trimmed text message =
    (text ≡ message ++ b'\n' ∷ []) ⊎ ((text ≡ message) × ((l : List ℕ) → text ≢ l ++ b'\n' ∷ []))

-- A text is empty or has a last character.
last_character : (cs : List ℕ) → (cs ≡ []) ⊎ ((l : List ℕ) × (c : ℕ) × (cs ≡ l ++ c ∷ []))
last_character [] = inl refl
last_character (c ∷ cs) = elim (last_character cs) [
  | inl empty ↦ inr ([], c, ap (λ l. c ∷ l) empty)
  | inr (l, d, e) ↦ inr (c ∷ l, d, ap (λ l. c ∷ l) e)
]

pub remove_newline-Trimmed :
    (text message : List ℕ) → Trimmed text message → remove_newline text ≡ message
unfolding remove_newline
remove_newline-Trimmed text message (inl e) = rw e (remove_newline_lem message b'\n')
remove_newline-Trimmed text message (inr (e, none_there)) = elim (last_character text) [
  | inl empty ↦ rw empty (sym empty ∙ e)
  | inr (l, c, f) ↦ elim (Bool-cases (c == b'\n')) [
    | inl newline ↦
        let same : c ≡ b'\n' = ground (arith, newline) in
        absurd (none_there l (f ∙ ap (λ d. l ++ d ∷ []) same))
    | inr another ↦
        let kept : remove_newline (l ++ c ∷ []) ≡ l ++ c ∷ [] =
          remove_newline_lem l c ∙ rw another refl in
        ap remove_newline f ∙ kept ∙ sym f ∙ e
  ]
]

no_last : (l : List ℕ) (c : ℕ) → [] ≢ l ++ c ∷ []
no_last l c e =
    let shorter : 0 ≡ length (l ++ c ∷ []) = ap length e in
    omega (arith, shorter, length-append l (c ∷ []))

-- Every text has a message.
pub remove_newline_self : (text : List ℕ) → Trimmed text (remove_newline text)
unfolding remove_newline
remove_newline_self text = elim (last_character text) [
  | inl empty ↦ rw empty (inr (refl, λ l. no_last l b'\n'))
  | inr (l, c, f) ↦ elim (Bool-cases (c == b'\n')) [
    | inl newline ↦
        let same : c ≡ b'\n' = ground (arith, newline) in
        let cut : remove_newline text ≡ l =
          ap remove_newline f ∙ remove_newline_lem l c ∙ rw newline refl in
        inl (f ∙ ap (λ d. l ++ d ∷ []) same ∙ ap (λ m. m ++ b'\n' ∷ []) (sym cut))
    | inr another ↦
        let kept : remove_newline text ≡ text =
          ap remove_newline f ∙ remove_newline_lem l c ∙ rw another (sym f) in
        inr (
          sym kept,
          λ l' e.
              let cut : remove_newline text ≡ l' =
                ap remove_newline e ∙ remove_newline_lem l' b'\n' in
              let same : length text ≡ length l' = ap length (sym kept ∙ cut) in
              let longer : length text ≡ length (l' ++ b'\n' ∷ []) = ap length e in
              omega (arith, same, longer, length-append l' (b'\n' ∷ [])),
        )
  ]
]

pub NoNul-append : (cs ds : List ℕ) → NoNul cs → NoNul ds → NoNul (cs ++ ds)
NoNul-append [] ds h k = k
NoNul-append (c ∷ cs) ds (here, rest) k = (here, NoNul-append cs ds rest k)

NoNul-prefix : (cs ds : List ℕ) → NoNul (cs ++ ds) → NoNul cs
NoNul-prefix [] ds h = tt
NoNul-prefix (c ∷ cs) ds (here, rest) = (here, NoNul-prefix cs ds rest)

pub NoNul-Trimmed : (text message : List ℕ) → Trimmed text message → NoNul text → NoNul message
NoNul-Trimmed text message (inl e) h = NoNul-prefix message (b'\n' ∷ []) (rw e at h)
NoNul-Trimmed text message (inr (e, none_there)) h = rw e at h
