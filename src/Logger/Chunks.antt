-- ===== src/Logger/Chunks.antt =====
-- One round of the loop in `log_complex` of logger.c.
use mirus.Base.{
  ℕ, suc, ◌+◌, ◌-◌, ◌<◌, ◌≡◌, refl, ap, ◌∙◌, arith, true, Option, none, some, ltb, if◌then◌else◌,
}
use mirus.Libk.{Memory}
use mirus.Logger.{Logger, log_stream_data, stream_chunks}

module _ {W : Type 0} (logger : Logger W) where
  pub stream_chunks_end :
      (rounds str : ℕ) (m : Memory) (w : W) → stream_chunks logger (suc rounds) str 0 m w ≡ some w
  unfolding stream_chunks
  stream_chunks_end rounds str m w = refl

  pub stream_chunks_step :
      (rounds str r chunk : ℕ) (m : Memory) (w w1 : W)
      → 0 < r
      → (if ltb 900 r then 900 else r) ≡ chunk
      → log_stream_data logger str chunk m w ≡ some w1
      → stream_chunks logger (suc rounds) str r m w
        ≡ stream_chunks logger rounds (str + chunk) (r - chunk) m w1
  unfolding stream_chunks
  stream_chunks_step rounds str r chunk m w w1 positive size wrote =
      let more : ltb 0 r ≡ true = ground arith in
      let round = λ (c : ℕ).
        let rest : Option W = elim (log_stream_data logger str c m w) [
          | none ↦ none
          | some w' ↦ stream_chunks logger rounds (str + c) (r - c) m w'
        ] in
        if ltb 0 r then rest else some w in
      ap round size ∙ rw (more, wrote) refl
