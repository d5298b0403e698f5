-- ===== src/Decoder/Clock.antt =====
-- The time of an event: ChannelClock, unwrap, the arithmetic of setTime, timeStampPs.
pub mod Window
pub mod Stream
use caen_daq.Base.{
  ℕ, zero, suc, ◌+◌, ◌-◌, ◌*◌, ◌/◌, ◌^◌, Bool, true, false, not, ◌||◌, ltb, leb, ◌==◌,
  if◌then◌else◌,
}
use caen_daq.Base.Int.{ℤ, pos, ◌+ℤ◌, signed64}
use caen_daq.Base.Words.{u32, u64}
use caen_daq.Board.{BoardInfo, contains, codes}

pub record ChannelClock : Type 0 where
  pub epoch : ℕ  -- uint64
  pub reference : ℕ  -- uint64
  pub seen : Bool

abbrev pub new_clock : ChannelClock
new_clock = record { epoch = 0; reference = 0; seen = false }

-- The distance between a candidate time and the reference.
abbrev pub distance : ℕ → ℕ → ℕ
distance f reference = if ltb reference f then f - reference else reference - f

-- `for (cand = lowest; cand <= epoch + 1; ++cand)`: the best candidate and its distance.
pub closest : ℕ → ℕ → ℕ → ℕ → ℕ → ℕ × ℕ → ℕ × ℕ
closest zero cand raw range reference best = best
closest (suc rounds) cand raw range reference best =
    let d = distance (u64 (raw + cand * range)) reference in
    closest rounds (cand + 1) raw range reference (if ltb d best.1 then (cand, d) else best)

-- The epoch that the loop chooses. It does not run before the first event.
pub best_epoch : ChannelClock → ℕ → ℕ → ℕ
unfolding closest
best_epoch c raw range =
    let lowest = if ltb 0 c.epoch then c.epoch - 1 else 0 in
    let rounds = if c.seen then c.epoch + 2 - lowest else 0 in
    (closest rounds lowest raw range c.reference (c.epoch, 2 ^ 64 - 1)).0

-- `c.seen = true; if (full > c.reference) c.reference = full; return full;`
abbrev pub settle : ChannelClock → ℕ → ℕ × ChannelClock
settle c full =
    (full, record c { reference = if ltb c.reference full then full else c.reference; seen = true })

unfoldable pub unwrap : ChannelClock → ℕ → ℕ → ℕ × ChannelClock
unfolding best_epoch
unwrap c raw width =
    if leb 64 width
    then settle c raw
    else (let best = best_epoch c raw (2 ^ width) in
        settle (record c { epoch = if ltb c.epoch best then best else c.epoch })
          (u64 (raw + best * 2 ^ width)))

-- The time in ps that setTime computes from the unwrapped counter, with the fine time stamp.
unfoldable pub time_in_ps : ℕ → ℕ → ℕ → ℕ → ℤ
time_in_ps ticks ps_per_tick fine_ts fine_bits =
    let ps = signed64 (u64 (ticks * ps_per_tick)) in
    if ltb 0 fine_bits then ps +ℤ signed64 (u64 (fine_ts * ps_per_tick) / 2 ^ fine_bits) else ps

unfoldable pub time_stamp_ps : BoardInfo → ℕ
unfolding contains
time_stamp_ps bi =
    if not (bi.ns_per_sample == 0)
    then u32 (1000 * bi.ns_per_sample)
    else (if contains (codes "724") bi.model_name
          || contains (codes "781") bi.model_name
          || contains (codes "782") bi.model_name
        then 10000
        else (if contains (codes "725") bi.model_name || contains (codes "720") bi.model_name
            then 4000
            else (if contains (codes "730") bi.model_name then 2000 else 0)))
