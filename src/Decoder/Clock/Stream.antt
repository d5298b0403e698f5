-- ===== src/Decoder/Clock/Stream.antt =====
-- A whole run of a board: the counter words of its events, in the order they are read.
use caen_daq.Base.{ℕ, ◌+◌, ◌*◌, ◌%◌, ◌^◌, ◌≤◌, ◌<◌, ◌≡◌, refl, arith, max, List, [], ◌∷◌, map}
use mathlib.Core.Path.{ap₂}
use native.Mathlib.Nat.{mod-eq_of_lt, pow-le-pow_right}
use caen_daq.Base.Words.{u64_small}
use caen_daq.Decoder.Clock.{ChannelClock, new_clock, closest, best_epoch, unwrap}
use caen_daq.Decoder.Clock.Window.{Tracks, unwrap_lem}

-- The times that `unwrap` gives to counter words that arrive one after another.
pub unwrap_all : ChannelClock → ℕ → List ℕ → List ℕ
unwrap_all c width [] = []
unwrap_all c width (raw ∷ raws) =
    let (full, c') = unwrap c raw width in full ∷ unwrap_all c' width raws

-- Each time is less than half a range away from the latest one before it.
abbrev pub Arrives : ℕ → ℕ → List ℕ → Type 0
Arrives range latest [] = Unit {0}
Arrives range latest (t ∷ ts) =
    (2 * t < 2 * latest + range)
    × (2 * latest < 2 * t + range)
    × (t + 2 * range ≤ 2 ^ 64)
    × Arrives range (max latest t) ts

unwrap_all_from :
    (c : ChannelClock) (width : ℕ) (ts : List ℕ)
    → width < 64
    → Tracks (2 ^ width) c
    → c.reference + 2 * 2 ^ width ≤ 2 ^ 64
    → Arrives (2 ^ width) c.reference ts
    → unwrap_all c width (map (λ t. t % 2 ^ width) ts) ≡ ts
unfolding unwrap_all
unwrap_all_from c width [] narrow k room a = refl
unwrap_all_from c width (t ∷ ts) narrow k room a = ap₂ ◌∷◌ placed.0 (
    unwrap_all_from (unwrap c (t % 2 ^ width) width).1 width ts narrow placed.1
      (rw placed.2 (omega arith)) (rw placed.2 a.3))
  where
    placed :
        ((unwrap c (t % 2 ^ width) width).0 ≡ t)
        × Tracks (2 ^ width) (unwrap c (t % 2 ^ width) width).1
        × ((unwrap c (t % 2 ^ width) width).1.reference ≡ max c.reference t)
    placed = unwrap_lem c width t narrow k (record { above = a.0; below = a.1 }) (omega arith)

first_event :
    (width t : ℕ)
    → width < 64
    → t < 2 ^ width
    → ((unwrap new_clock t width).0 ≡ t)
      × Tracks (2 ^ width) (unwrap new_clock t width).1
      × ((unwrap new_clock t width).1.reference ≡ t)
unfolding unwrap best_epoch closest
first_event width t narrow h =
    ground (
      arith,
      pow-le-pow_right {n = 2} (omega arith) {i = width} {j = 63} (omega arith),
      u64_small t,
    )

-- Times that move by less than half a wrap, forwards or backwards, are all recovered from the
-- counter words alone, however often the counter wraps.
pub unwrap_all_lem :
    (width t : ℕ) (ts : List ℕ)
    → width < 63
    → t < 2 ^ width
    → Arrives (2 ^ width) t ts
    → unwrap_all new_clock width (map (λ s. s % 2 ^ width) (t ∷ ts)) ≡ t ∷ ts
unfolding unwrap_all
unwrap_all_lem width t ts narrow h a = rw (mod-eq_of_lt h) (
    ap₂ ◌∷◌ first.0 (
      unwrap_all_from (unwrap new_clock t width).1 width ts (omega arith) first.1 (rw first.2 room)
        (rw first.2 a)))
  where
    first :
        ((unwrap new_clock t width).0 ≡ t)
        × Tracks (2 ^ width) (unwrap new_clock t width).1
        × ((unwrap new_clock t width).1.reference ≡ t)
    first = first_event width t (omega arith) h

    room : t + 2 * 2 ^ width ≤ 2 ^ 64
    room = omega (arith, pow-le-pow_right {n = 2} (omega arith) {i = width} {j = 62} (omega arith))
