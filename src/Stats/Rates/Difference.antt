-- ===== src/Stats/Rates/Difference.antt =====
-- A rate is the difference of the same counter in two samples.
use caen_daq.Base.{
  if◌then◌else◌, arith, if_on, leb, ==_iff, Bool-cases, ap, refl, suc, sym, zero, ◌-◌, ◌∙◌, ◌≤◌,
  Bool, List, Option-cases, [], get_elem?, inl, inr, some, true, ℕ, ◌∷◌, ◌≡◌,
}
use caen_daq.Stats.Rates.{
  rate_of, same_channel, BoardSample, ChannelSample, board_rate, channel_rate, key_of, same_board,
  last_with,
}

some_inj : {A : Type 0} (a b : A) → some a ≡ some b → a ≡ b
some_inj a b e = cc e

last_with_sound :
    {A : Type 0} (test : A → Bool) (xs : List A) (y : A)
    → last_with test xs ≡ some y
    → (j : ℕ) × (get_elem? xs j ≡ some y) × (test y ≡ true)
unfolding last_with
last_with_sound test [] y = λ e. cc e
last_with_sound test (x ∷ xs) y = elim (Option-cases (last_with test xs)) [
  | inr (z, e) ↦ rw e (λ h.
      let (j, there, passes) = last_with_sound test xs z e in
      let same = some_inj z y h in (suc j, there ∙ h, ap test (sym same) ∙ passes))
  | inl e ↦ elim (Bool-cases (test x)) [
    | inl passes ↦ rw (e, passes) (λ h. (0, h, ap test (sym (some_inj x y h)) ∙ passes))
    | inr fails ↦ rw (e, fails) (λ h. cc h)
  ]
]

-- The only entry that passes the test is found.
last_with-found :
    {A : Type 0} (test : A → Bool) (xs : List A) (i : ℕ) (x : A)
    → get_elem? xs i ≡ some x
    → test x ≡ true
    → ((j : ℕ) (y : A) → get_elem? xs j ≡ some y → test y ≡ true → y ≡ x)
    → last_with test xs ≡ some x
unfolding last_with
last_with-found test [] i x here_it passes only = cc here_it
last_with-found test (a ∷ xs) (suc i) x here_it passes only =
    rw (last_with-found test xs i x here_it passes (λ j. only (suc j))) refl
last_with-found test (a ∷ xs) zero x here_it passes only = elim (Option-cases (last_with test xs)) [
  | inr (y, e) ↦
      let (j, there, good) = last_with_sound test xs y e in
      rw e (ap some (only (suc j) y there good))
  | inl e ↦ let same = some_inj a x here_it in rw (e, ap test same ∙ passes) here_it
]

rate_up :
    {R : Type 0} (per_second : ℕ → R) (zero_rate : R) (a b : ℕ)
    → a ≤ b
    → rate_of per_second zero_rate a b ≡ per_second (b - a)
rate_up per_second zero_rate a b h =
    let e : leb a b ≡ true = ground arith in if_on (leb a b) (per_second (b - a)) zero_rate e

-- A board that is in the last sample and there alone has its number: its write rate is what its
-- byte counter has grown since, per second; a counter that went back gives the rate zero.
pub board_rate-difference :
    {R : Type 0} (per_second : ℕ → R) (zero_rate : R) (prev : List BoardSample) (i : ℕ)
    (p b : BoardSample)
    → get_elem? prev i ≡ some p
    → p.board_reg_id ≡ b.board_reg_id
    → ((j : ℕ) (q : BoardSample)
        → get_elem? prev j ≡ some q
        → q.board_reg_id ≡ b.board_reg_id
        → q ≡ p)
    → (board_rate per_second zero_rate prev b).write_rate ≡ (
        if leb p.bytes_written b.bytes_written
        then per_second (b.bytes_written - p.bytes_written)
        else zero_rate)
unfolding board_rate
board_rate-difference per_second zero_rate prev i p b there same only =
    let found =
      last_with-found (same_board b) prev i p there ((==_iff p.board_reg_id b.board_reg_id).1 same)
        (λ j q at_j passes. only j q at_j ((==_iff q.board_reg_id b.board_reg_id).0 passes)) in
    rw found refl

-- A channel that is in the last sample and there alone has its key: each of its rates is what the
-- counter has grown since, per second, if no counter went back.
pub channel_rate-difference :
    {R : Type 0} (per_second : ℕ → R) (zero_rate : R) (before : List ChannelSample) (i : ℕ)
    (p c : ChannelSample)
    → get_elem? before i ≡ some p
    → key_of p ≡ key_of c
    → ((j : ℕ) (q : ChannelSample) → get_elem? before j ≡ some q → key_of q ≡ key_of c → q ≡ p)
    → p.counts.events ≤ c.counts.events
    → p.counts.pileup ≤ c.counts.pileup
    → p.counts.lost ≤ c.counts.lost
    → p.counts.satu ≤ c.counts.satu
    → channel_rate per_second zero_rate before c ≡ record {
      board = c.board;
      ch = c.ch;
      events = per_second (c.counts.events - p.counts.events);
      pileup = per_second (c.counts.pileup - p.counts.pileup);
      lost = per_second (c.counts.lost - p.counts.lost);
      satu = per_second (c.counts.satu - p.counts.satu);
    }
unfolding channel_rate
channel_rate-difference per_second zero_rate before i p c there same only e l m n =
    let found =
      last_with-found (same_channel c) before i p there ((==_iff (key_of p) (key_of c)).1 same)
        (λ j q at_j passes. only j q at_j ((==_iff (key_of q) (key_of c)).0 passes)) in
    rw
      (
        found,
        rate_up per_second zero_rate p.counts.events c.counts.events e,
        rate_up per_second zero_rate p.counts.pileup c.counts.pileup l,
        rate_up per_second zero_rate p.counts.lost c.counts.lost m,
        rate_up per_second zero_rate p.counts.satu c.counts.satu n,
      )
      refl
