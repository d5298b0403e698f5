-- ===== src/ClockSync/Procedure.antt =====
-- synchroniseClockChain: the boards are reached by callbacks, which may be null and may fail, and
-- which change a world `W`. The times in ms are `int`s that are not negative.
pub mod Total
pub mod Kept
use caen_daq.Base.{
  Bool, List, Option, Result, [], err, false, if◌then◌else◌, leb, none, not, ok, out_of_fuel, some,
  suc, true, zero, ℕ, ◌&&◌, ◌+◌, ◌>>=◌, ◌||◌, ◌∷◌,
}
use caen_daq.Base.Words.{test_bit}
use caen_daq.Board.{Text}

-- A read that fails may leave the caller's variable as it was: it is given the old value.
pub record ChainBoard (W : Type 0) : Type 0 where
  pub name : Text
  pub is_first : Bool  -- `master`
  pub write : Option (ℕ → ℕ → W → Bool × W)
  pub read : Option (ℕ → ℕ → W → Bool × ℕ × W)

pub record SyncOptions (W : Type 0) : Type 0 where
  pub settle_ms : ℕ
  pub ready_timeout_ms : ℕ
  pub poll_ms : ℕ
  pub stable_ms : ℕ
  pub sleep : ℕ → W → W

pub record LockState : Type 0 where
  pub name : Text
  pub is_first : Bool
  pub synced : Bool
  pub status_read : Bool
  pub ready : Bool
  pub stable : Bool
  pub external : Bool

-- `ClockLockState::ok`
unfoldable pub is_locked : LockState → Bool
is_locked s = s.synced && s.status_read && s.ready && s.stable && (s.is_first || s.external)

abbrev pub reg_sync : ℕ
reg_sync = 0x813C

abbrev pub reg_status : ℕ
reg_status = 0x8104

abbrev pub reg_vme : ℕ
reg_vme = 0xEF04

module _ {W : Type 0} (options : SyncOptions W) where
  abbrev pub call_write : Option (ℕ → ℕ → W → Bool × W) → W → Bool × W
  call_write none w = (false, w)
  call_write (some write) w = write reg_sync 1 w

  -- 1. Each board in turn is told to re-align.
  unfoldable pub realign : List (ChainBoard W) → W → List LockState × W
  realign [] w = ([], w)
  realign (b ∷ chain) w =
      let (synced, w') = call_write b.write w in
      let (states, last) = realign chain (options.sleep options.settle_ms w') in
      (
        record {
          name = b.name;
          is_first = b.is_first;
          synced = synced;
          status_read = false;
          ready = false;
          stable = false;
          external = false;
        }
            ∷ states,
        last,
      )

  -- The wait for Board Ready, on fuel: whether the status was read, its last value, the world.
  unfoldable pub wait_ready :
      ℕ → (ℕ → ℕ → W → Bool × ℕ × W) → ℕ → Bool → ℕ → W → Result (Bool × ℕ × W)
  wait_ready zero read waited seen status w = err out_of_fuel
  wait_ready (suc fuel) read waited seen status w =
      let (good, now, w') = read reg_status status w in
      let again =
        wait_ready fuel read (waited + options.poll_ms) (seen || good) now
          (options.sleep options.poll_ms w') in
      if good && test_bit now 8
      then ok (true, now, w')
      else (if leb options.ready_timeout_ms waited then ok (seen || good, now, w') else again)

  -- The PLL must stay locked for a while after its flag is set again.
  abbrev pub judge : (ℕ → ℕ → W → Bool × ℕ × W) → LockState → Bool × ℕ × W → LockState × W
  judge read s (seen, status, w) =
      if not seen
      then (s, w)
      else (let (_, ignored, w1) = read reg_vme 0 w in
          let (good, now, w2) = read reg_status status (options.sleep options.stable_ms w1) in
          if good
          then (
            record s {
              status_read = true;
              ready = test_bit now 8;
              stable = test_bit now 7;
              external = test_bit now 5;
            },
            w2,
          )
          else (record s { status_read = false; ready = test_bit status 8 }, w2))

  unfoldable pub check_board : ChainBoard W → LockState → W → Result (LockState × W)
  unfolding wait_ready
  check_board b s w = elim b.read [
    | none ↦ ok (s, w)
    | some read ↦
        wait_ready (options.ready_timeout_ms + 1) read 0 false 0 w >>= λ r. ok (judge read s r)
  ]

  -- 2. Each board in turn is checked.
  unfoldable pub check_all : List (ChainBoard W) → List LockState → W → Result (List LockState × W)
  unfolding check_board
  check_all (b ∷ chain) (s ∷ states) w =
      check_board b s w >>= λ r. check_all chain states r.1 >>= λ rest. ok (r.0 ∷ rest.0, rest.1)
  check_all _ _ w = ok ([], w)

  unfoldable pub synchronise_clock_chain : List (ChainBoard W) → W → Result (List LockState × W)
  unfolding realign check_all
  synchronise_clock_chain chain w = let (states, w') = realign chain w in check_all chain states w'
