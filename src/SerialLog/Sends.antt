-- ===== src/SerialLog/Sends.antt =====
-- Runs of log calls, with exactly what they send.
use mirus.Base.{ℕ, ◌≡◌, refl, sym, ap, ◌∙◌, true, some, List, [], ◌∷◌, ◌++◌}
use mathlib.Core.List.{append-nil, append_assoc}
use mirus.Serial.{Serial}
use mirus.Logger.Text.{bytes, bytes-append}
use mirus.SerialLog.{Output, Line, Boot, pure, ◌>>=◌, ◌>>◌, log}
use mirus.SerialLog.Quiet.{Works, line_text, named, log_lem}

module _ (o : Output) where
  -- the text of these lines in a row
  abbrev pub lines_text : List Line → List ℕ
  lines_text [] = []
  lines_text (l ∷ ls) = line_text o l ++ lines_text ls

  -- It returns this value, and has sent exactly these lines.
  abbrev pub Sends : {A : Type 0} → List Line → Boot A → A → Type 0
  Sends ls m a =
      (s : Serial)
      → (s' : Serial) × (m s ≡ some (a, s')) × (s'.output ≡ s.output ++ bytes (lines_text ls))

pub Sends-pure : (o : Output) {A : Type 0} (a : A) → Sends o [] (pure a) a
Sends-pure o a s = (s, refl, sym (append-nil s.output))

pub Sends-log :
    (o : Output)
    → Works o
    → {A : Type 0} (l : Line) (ls : List Line) (k : Boot A) (a : A) → named l ≡ true
    → Sends o ls k a
    → Sends o (l ∷ ls) (log o l >> k) a
Sends-log o works l ls k a short rest s =
    let (s1, e1, out1) = log_lem o works l s short in
    let (s2, e2, out2) = rest s1 in
    (
      s2,
      rw (◌>>◌, ◌>>=◌, e1) e2,
      out2
          ∙ ap (λ w. w ++ bytes (lines_text o ls)) out1
          ∙ append_assoc s.output (bytes (line_text o l)) (bytes (lines_text o ls))
          ∙ ap (λ w. s.output ++ w) (sym (bytes-append (line_text o l) (lines_text o ls))),
    )
