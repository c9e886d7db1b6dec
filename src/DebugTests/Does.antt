-- ===== src/DebugTests/Does.antt =====
-- What each part of the run in debug_tests.c does to the blocks that are out.
use mirus.Base.{ℕ, ◌+◌, ◌*◌, ◌/◌, ◌≡◌, refl, ◌≢◌, sym, Option, none, some, List, [], ◌∷◌, ◌++◌}
use mathlib.Core.Path.{subst}
use mirus.Buddy.{null, page_size, find_order}
use mirus.Buddy.Life.{Block, IsSound}
use mirus.Buddy.Debug.Totals.{held_bytes, debug_state_returns}
use mirus.Pmm.{Pmm, pmm_alloc, pmm_debug_print_state}
use mirus.Pmm.Start.{pmm_alloc-IsSound, pmm_free-IsSound}
use mirus.SerialLog.{Line}
use mirus.DebugTests.{
  Event, given, says, Test, pure, chained, ◌>>=◌, alloc, log, release, print_state,
}

-- Every address that was given is one.
abbrev pub AllGiven : List Event → Type 0
AllGiven [] = Unit
AllGiven (given a ∷ es) = (a ≢ null) × AllGiven es
AllGiven (says l ∷ es) = AllGiven es

AllGiven-append : (es fs : List Event) → AllGiven (es ++ fs) → AllGiven es × AllGiven fs
AllGiven-append [] fs h = (tt, h)
AllGiven-append (given a ∷ es) fs (here, rest) =
    let (l, r) = AllGiven-append es fs rest in ((here, l), r)
AllGiven-append (says l ∷ es) fs h = AllGiven-append es fs h

module _ (start pool : ℕ) where
  -- The manager is sound with these blocks out.
  abbrev pub Out : List Block → Pmm → Type 0
  Out blocks s = IsSound start pool (record { heap = s.buddy_allocator; blocks = blocks })

  -- Where no request is refused, the part returns, and leaves what `after` says.
  pub record Does {A : Type 0} (m : Test A) (before : Pmm → Type 0) (after : A → Pmm → Type 0)
      : Type 0 where
    pub returns :
        (s : Pmm)
        → before s
        → AllGiven (m s).0
        → (a : A) × (s' : Pmm) × ((m s).1 ≡ some (a, s')) × after a s'

  pub Does-pure :
      {A : Type 0} (a : A) (before : Pmm → Type 0) (after : A → Pmm → Type 0)
      → ((s : Pmm) → before s → after a s)
      → Does (pure a) before after
  Does-pure a before after leaves = record { returns = λ s h given_all. (a, s, refl, leaves s h) }

  -- the two parts of a chain, by the pair that the first leaves
  Does-chained :
      {A B : Type 0} (p : List Event × Option (A × Pmm)) (f : A → Test B)
      (between : A → Pmm → Type 0) (after : B → Pmm → Type 0)
      → (AllGiven p.0 → (a : A) × (s' : Pmm) × (p.1 ≡ some (a, s')) × between a s')
      → ((a : A) → Does (f a) (between a) after)
      → AllGiven (chained p f).0
      → (b : B) × (s' : Pmm) × ((chained p f).1 ≡ some (b, s')) × after b s'
  Does-chained {A} (events, none) f between after first rest h =
      let (a, s', e, holds) = first h in absurd (cc e)
  Does-chained {A} (events, some (a, s)) f between after first rest h =
      let (h1, h2) = AllGiven-append events (f a s).0 h in
      let (a', s', e, holds) = first h1 in
      let one : A × Pmm = (a, s) in
      let other : A × Pmm = (a', s') in
      let same : one ≡ other = cc e in
      (rest a).returns s (subst (λ p. between p.0 p.1) (sym same) holds) h2

  pub Does-bind :
      {A B : Type 0} (m : Test A) (f : A → Test B) (before : Pmm → Type 0)
      (between : A → Pmm → Type 0) (after : B → Pmm → Type 0)
      → Does m before between
      → ((a : A) → Does (f a) (between a) after)
      → Does (m >>= f) before after
  Does-bind m f before between after first rest = record {
    returns = λ s h. Does-chained (m s) f between after (first.returns s h) rest;
  }

  pub log-Does : (l : Line) (before : Pmm → Type 0) → Does (log l) before (λ _. before)
  unfolding log
  log-Does l before = record { returns = λ s h given_all. (tt, s, refl, h) }

  pub alloc-Does :
      (size : ℕ) (blocks : List Block)
      → Does (alloc size) (Out blocks) (λ a. Out ((a, find_order size) ∷ blocks))
  unfolding alloc
  alloc-Does size blocks = record {
    returns = λ s sound given_all. (
      (pmm_alloc size s).0,
      (pmm_alloc size s).1,
      refl,
      pmm_alloc-IsSound start pool size s blocks sound given_all.0,
    );
  }

  pub release-Does :
      (before after : List Block) (p k : ℕ)
      → Does
          (release (pool / page_size + 1) p)
          (Out (before ++ (p, k) ∷ after))
          (λ _. Out (before ++ after))
  unfolding release
  release-Does before after p k = record {
    returns = λ s sound given_all.
        let (s', returned, rest) = pmm_free-IsSound start pool p k s before after sound in
        (tt, s', rw (release, returned) refl, rest);
  }

  -- The report at the end: with the blocks that are out the free bytes make up the whole pages.
  pub print_state-Does :
      (blocks : List Block)
      → Does
          (print_state (pool / page_size + 1))
          (Out blocks)
          (λ d s. Out blocks s × (d.total_free + held_bytes blocks ≡ pool / page_size * page_size))
  unfolding print_state pmm_debug_print_state
  print_state-Does blocks = record {
    returns = λ s sound given_all.
        let (d, returned, orders, both, rest) =
          debug_state_returns start pool (record { heap = s.buddy_allocator; blocks = blocks })
            sound in
        (d, s, rw (print_state, pmm_debug_print_state, returned) refl, (sound, both));
  }
