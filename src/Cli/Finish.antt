-- ===== src/Cli/Finish.antt =====
-- The loop in which the program waits, and its end.
use caen_daq.Base.{
  false, Bool, Bool-cases, Option, arith, if◌then◌else◌, inl, inr, leb, none, not, refl, some, suc,
  zero, ℕ, ◌&&◌, ◌*◌, ◌+◌, ◌/◌, ◌<◌, ◌==◌, ◌≡◌, ◌≤◌,
}
use caen_daq.Daq.Session.{Daq, Env, stop_run}
use caen_daq.Digitizer.{Digitizer}

-- The rounds that are done when the loop ends, at most `fuel` more from round `i` on. `signalled`:
-- what a round finds at its start. `passed`: the ms since the start at its end.
unfoldable pub wait_rounds : (ℕ → Bool) → (ℕ → ℕ) → ℕ → ℕ → ℕ → Option ℕ
wait_rounds signalled passed seconds zero i = none
wait_rounds signalled passed seconds (suc fuel) i =
    let rest = wait_rounds signalled passed seconds fuel (i + 1) in
    if signalled i
    then some i
    else (if not (seconds == 0) && leb seconds (passed i / 1000) then some (i + 1) else rest)

-- The run is stopped; exit code 0.
unfoldable pub cli_finish : {D Frame : Type 0} → Digitizer D → Env → Daq D Frame → ℕ × Daq D Frame
cli_finish ops env d = (0, stop_run ops env d)

-- While the time is not over, there are rounds left.
not_over :
    (seconds ms i : ℕ)
    → 500 * (i + 1) ≤ ms
    → i < 2 * seconds
    → (not (seconds == 0) && leb seconds (ms / 1000)) ≡ false
    → i + 1 < 2 * seconds
not_over seconds ms i slow h on = ground (arith, on)

wait_rounds-from :
    (signalled : ℕ → Bool) (passed : ℕ → ℕ) (seconds fuel i : ℕ)
    → ((j : ℕ) → 500 * (j + 1) ≤ passed j)
    → i < 2 * seconds
    → 2 * seconds ≤ i + fuel
    → (k : ℕ) × (wait_rounds signalled passed seconds fuel i ≡ some k) × (k ≤ 2 * seconds)
unfolding wait_rounds
wait_rounds-from signalled passed seconds zero i slow h f = absurd (omega (arith, h, f))
wait_rounds-from signalled passed seconds (suc fuel) i slow h f = elim (Bool-cases (signalled i)) [
  | inl e ↦ rw e (i, refl, omega (arith, h))
  | inr e ↦ elim (Bool-cases (not (seconds == 0) && leb seconds (passed i / 1000))) [
    | inl over ↦ rw (e, over) (i + 1, refl, omega (arith, h))
    | inr on ↦
        rw (e, on)
          (wait_rounds-from signalled passed seconds fuel (i + 1) slow
            (not_over seconds (passed i) i (slow i) h on) (omega (arith, f)))
  ]
]

-- With a number of seconds the program stops waiting, whatever the signals, in at most two rounds
-- for each second, if a round takes at least 500 ms.
pub wait_rounds-ends :
    (signalled : ℕ → Bool) (passed : ℕ → ℕ) (seconds : ℕ)
    → 0 < seconds
    → ((j : ℕ) → 500 * (j + 1) ≤ passed j)
    → (k : ℕ) × (wait_rounds signalled passed seconds (2 * seconds) 0 ≡ some k) × (k ≤ 2 * seconds)
wait_rounds-ends signalled passed seconds h slow =
    wait_rounds-from signalled passed seconds (2 * seconds) 0 slow (omega (arith, h)) (omega arith)
