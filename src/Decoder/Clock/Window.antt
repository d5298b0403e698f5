-- ===== src/Decoder/Clock/Window.antt =====
-- An event is placed where it was: the unwrapped counter is the true one.
use caen_daq.Base.{
  ℕ, zero, suc, ◌+◌, ◌-◌, ◌*◌, ◌/◌, ◌%◌, ◌^◌, ◌≤◌, ◌<◌, ◌≡◌, leb, false, max, ◌≢◌, true, arith, ltb,
  if◌then◌else◌, max, dec_lt,
}
use native.Mathlib.Nat.{div-add-mod', mod-lt, one-le-pow, pow-le-pow_right}
use caen_daq.Base.Words.{u64, u64_small}
use caen_daq.Decoder.Clock.{ChannelClock, closest, best_epoch, distance, unwrap, settle}

pub mul_mono : (a b k : ℕ) → a ≤ b → a * k ≤ b * k
mul_mono a b k h = grind arith

-- A counter within half a range of the reference lies in its epoch or in a neighbouring one.
near_epoch :
    (range e reference q r : ℕ)
    → e * range ≤ reference
    → reference < (e + 1) * range
    → r < range
    → 2 * (q * range + r) < 2 * reference + range
    → 2 * reference < 2 * (q * range + r) + range
    → (q ≤ e + 1) × (e ≤ q + 1)
near_epoch range e reference q r from to hr above below = (up, down)
  where
    up : q ≤ e + 1
    up = elim (dec_lt (e + 1) q) [
      | yes h ↦ absurd (omega (arith, mul_mono (e + 2) q range (omega arith)))
      | no h ↦ omega arith
    ]

    down : e ≤ q + 1
    down = elim (dec_lt (q + 1) e) [
      | yes h ↦ absurd (omega (arith, mul_mono (q + 2) e range (omega arith)))
      | no h ↦ omega arith
    ]

-- The loop finds the one candidate `q` that lies within half a range of the reference.
module _ (range reference q r : ℕ) (hr : r < range)
    (above : 2 * (q * range + r) < 2 * reference + range)
    (below : 2 * reference < 2 * (q * range + r) + range) where
  distance_near : (q + 1) * range ≤ 2 ^ 64 → 2 * distance (u64 (r + q * range)) reference < range
  distance_near room = ground (arith, u64_small (r + q * range))

  distance_far :
      (cand : ℕ)
      → (cand + 1) * range ≤ 2 ^ 64
      → cand ≢ q
      → range ≤ 2 * distance (u64 (r + cand * range)) reference
  distance_far cand room other = elim (dec_lt cand q) [
    | yes h ↦ ground (arith, u64_small (r + cand * range), mul_mono (cand + 1) q range)
    | no h ↦ ground (arith, u64_small (r + cand * range), mul_mono (q + 1) cand range)
  ]

  closest_kept :
      (rounds cand : ℕ) (best : ℕ × ℕ)
      → (cand + rounds) * range ≤ 2 ^ 64
      → q < cand
      → best.0 ≡ q
      → 2 * best.1 < range
      → (closest rounds cand r range reference best).0 ≡ q
  unfolding closest
  closest_kept zero cand best room later found near = found
  closest_kept (suc rounds) cand best room later found near =
      closest_kept rounds (cand + 1) _ (omega arith) (omega arith) (ground (arith, far))
        (ground (arith, far))
    where
      far : range ≤ 2 * distance (u64 (r + cand * range)) reference
      far =
          distance_far cand (omega (arith, mul_mono (cand + 1) (cand + suc rounds) range))
            (omega arith)

  closest_found :
      (rounds cand : ℕ) (best : ℕ × ℕ)
      → (cand + rounds) * range ≤ 2 ^ 64
      → cand ≤ q
      → q < cand + rounds
      → range ≤ 2 * best.1
      → (closest rounds cand r range reference best).0 ≡ q
  unfolding closest
  closest_found zero cand best room low high far = absurd (omega arith)
  closest_found (suc rounds) cand best room low high far = elim (dec_lt cand q) [
    | yes h ↦
        closest_found rounds (cand + 1) _ (omega arith) (omega arith) (omega arith)
          (ground (arith, miss (omega arith)))
    | no h ↦
        closest_kept rounds (cand + 1) _ (omega arith) (omega arith)
          (ground (arith, hit (omega arith))) (ground (arith, hit (omega arith)))
  ]
    where
      in_room : (cand + 1) * range ≤ 2 ^ 64
      in_room = omega (arith, mul_mono (cand + 1) (cand + suc rounds) range)

      miss : cand ≢ q → range ≤ 2 * distance (u64 (r + cand * range)) reference
      miss = distance_far cand in_room

      hit : q ≡ cand → 2 * distance (u64 (r + cand * range)) reference < range
      hit e = rw (← e) (distance_near (rw e in_room))

-- The clock of a board that has sent an event: the epoch is that of the latest time.
pub record Tracks (range : ℕ) (c : ChannelClock) : Type 0 where
  pub started : c.seen ≡ true
  pub from : c.epoch * range ≤ c.reference
  pub to : c.reference < (c.epoch + 1) * range

-- The time `t` is less than half a range before or after the latest time.
pub record InWindow (range : ℕ) (c : ChannelClock) (t : ℕ) : Type 0 where
  pub above : 2 * t < 2 * c.reference + range
  pub below : 2 * c.reference < 2 * t + range

best_epoch_lem :
    (c : ChannelClock) (range q r : ℕ)
    → Tracks range c
    → InWindow range c (q * range + r)
    → r < range
    → range ≤ 2 ^ 63
    → (c.epoch + 2) * range ≤ 2 ^ 64
    → best_epoch c r range ≡ q
unfolding best_epoch
best_epoch_lem c range q r k win hr small room =
    rw (k.started, best_epoch)
      (closest_found range c.reference q r hr win.above win.below
        (c.epoch + 2 - (if ltb 0 c.epoch then c.epoch - 1 else 0))
        (if ltb 0 c.epoch then c.epoch - 1 else 0) (c.epoch, 2 ^ 64 - 1) (rw last room)
        (ground (arith, neighbour)) (rw last (omega (arith, neighbour))) (omega arith))
  where
    last :
        (if ltb 0 c.epoch then c.epoch - 1 else 0)
          + (c.epoch + 2 - (if ltb 0 c.epoch then c.epoch - 1 else 0))
        ≡ c.epoch + 2
    last = ground arith

    neighbour : (q ≤ c.epoch + 1) × (c.epoch ≤ q + 1)
    neighbour = near_epoch range c.epoch c.reference q r k.from k.to hr win.above win.below

settled :
    (c : ChannelClock) (range q r t : ℕ)
    → Tracks range c
    → InWindow range c t
    → q * range + r ≡ t
    → r < range
    → (c.epoch + 2) * range ≤ 2 ^ 64
    → let (full, c') =
        settle (record c { epoch = if ltb c.epoch q then q else c.epoch }) (u64 (r + q * range)) in
      (full ≡ t) × Tracks range c' × (c'.reference ≡ max c.reference t)
settled c range q r t k win split hr room = ground (
  arith,
  mul_mono (q + 1) (c.epoch + 2) range,
  near_epoch range c.epoch c.reference q r k.from k.to hr,
  mul_mono (q + 1) c.epoch range,
  mul_mono (c.epoch + 1) q range,
)

-- An event less than half a wrap away from the latest one, before it or after it, is given its
-- true time, and the board's clock keeps tracking.
pub unwrap_lem :
    (c : ChannelClock) (width t : ℕ)
    → width < 64
    → Tracks (2 ^ width) c
    → InWindow (2 ^ width) c t
    → (c.epoch + 2) * 2 ^ width ≤ 2 ^ 64
    → ((unwrap c (t % 2 ^ width) width).0 ≡ t)
      × Tracks (2 ^ width) (unwrap c (t % 2 ^ width) width).1
      × ((unwrap c (t % 2 ^ width) width).1.reference ≡ max c.reference t)
unfolding unwrap
unwrap_lem c width t narrow k win room =
    rw (wide, best) (settled c (2 ^ width) (t / 2 ^ width) (t % 2 ^ width) t k win split small room)
  where
    wide : leb 64 width ≡ false
    wide = ground arith

    split : t / 2 ^ width * 2 ^ width + t % 2 ^ width ≡ t
    split = div-add-mod' t (2 ^ width)

    small : t % 2 ^ width < 2 ^ width
    small = mod-lt t (one-le-pow width 2 (omega arith))

    best : best_epoch c (t % 2 ^ width) (2 ^ width) ≡ t / 2 ^ width
    best =
        best_epoch_lem c (2 ^ width) (t / 2 ^ width) (t % 2 ^ width) k (rw split win) small
          (pow-le-pow_right (omega arith) {j = 63} (omega arith)) room
