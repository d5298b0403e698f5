-- ===== src/Stats/Rates.antt =====
-- src/StatsCollector.cpp: the rates between two samples, and their text for Graphite. A rate `R`
-- is a floating-point number: the division by the time between the samples is a parameter.
pub mod Difference
use caen_daq.Base.{
  Bool, List, Option, [], if◌then◌else◌, leb, map, none, some, ℕ, ◌*◌, ◌++◌, ◌+◌, ◌-◌, ◌==◌, ◌^◌,
  ◌∷◌,
}
use caen_daq.Histogram.{Counts}
use caen_daq.Board.{codes, Text}
use caen_daq.Writer.Names.{decimal}
use caen_daq.Histogram.{no_counts}

pub record ChannelSample : Type 0 where
  pub board : ℕ
  pub ch : ℕ
  pub counts : Counts

pub record BoardSample : Type 0 where
  pub name : Text
  pub board_reg_id : ℕ
  pub bytes_written : ℕ
  pub board_fail : ℕ
  pub channels : List ChannelSample

pub record ChannelRate (R : Type 0) : Type 0 where
  pub board : ℕ
  pub ch : ℕ
  pub events : R
  pub pileup : R
  pub lost : R
  pub satu : R

pub record BoardRate (R : Type 0) : Type 0 where
  pub name : Text
  pub board_reg_id : ℕ
  pub write_rate : R
  pub board_fail : ℕ
  pub channels : List (ChannelRate R)

-- What a map that is filled by assignment holds in the end.
unfoldable pub last_with : {A : Type 0} → (A → Bool) → List A → Option A
last_with test [] = none
last_with test (x ∷ xs) = elim (last_with test xs) [
  | some y ↦ some y
  | none ↦ if test x then some x else none
]

-- `keyOf`
abbrev pub key_of : ChannelSample → ℕ
key_of c = c.board * 2 ^ 16 + c.ch

abbrev pub same_board : BoardSample → BoardSample → Bool
same_board b p = p.board_reg_id == b.board_reg_id

abbrev pub same_channel : ChannelSample → ChannelSample → Bool
same_channel c p = key_of p == key_of c

-- `prevCounts[b.boardRegId]`, in the order of the assignments.
unfoldable pub previous_channels : BoardSample → List BoardSample → List ChannelSample
previous_channels b [] = []
previous_channels b (p ∷ prev) =
    let rest = previous_channels b prev in if same_board b p then p.channels ++ rest else rest

abbrev pub counts_in : Option ChannelSample → Counts
counts_in none = no_counts
counts_in (some c) = c.counts

abbrev pub bytes_before : BoardSample → Option BoardSample → ℕ
bytes_before b none = b.bytes_written
bytes_before b (some p) = p.bytes_written

module _ {R : Type 0} (per_second : ℕ → R) (zero_rate : R) where
  -- A counter that went back gives no rate.
  abbrev pub rate_of : ℕ → ℕ → R
  rate_of before now = if leb before now then per_second (now - before) else zero_rate

  unfoldable pub channel_rate : List ChannelSample → ChannelSample → ChannelRate R
  unfolding last_with
  channel_rate before c =
      let p = counts_in (last_with (same_channel c) before) in
      record {
        board = c.board;
        ch = c.ch;
        events = rate_of p.events c.counts.events;
        pileup = rate_of p.pileup c.counts.pileup;
        lost = rate_of p.lost c.counts.lost;
        satu = rate_of p.satu c.counts.satu;
      }

  unfoldable pub board_rate : List BoardSample → BoardSample → BoardRate R
  unfolding last_with channel_rate previous_channels
  board_rate prev b = record {
    name = b.name;
    board_reg_id = b.board_reg_id;
    write_rate = rate_of (bytes_before b (last_with (same_board b) prev)) b.bytes_written;
    board_fail = b.board_fail;
    channels = map (channel_rate (previous_channels b prev)) b.channels;
  }

  -- One tick.
  abbrev pub board_rates : List BoardSample → List BoardSample → List (BoardRate R)
  board_rates prev cur = map (board_rate prev) cur

module _ {R : Type 0} (print : R → Text) where
  abbrev pub line : Text → R → Text → Text
  line path r epoch = path ++ codes " " ++ print r ++ codes " " ++ epoch ++ codes "\n"

  unfoldable pub channel_lines : Text → Text → List (ChannelRate R) → Text
  channel_lines prefix epoch [] = []
  channel_lines prefix epoch (c ∷ cs) =
      let base =
        prefix ++ codes ".bo_" ++ decimal c.board ++ codes ".ch_" ++ decimal c.ch ++ codes "." in
      line (base ++ codes "totalRate") c.events epoch
      ++ line (base ++ codes "pileRate") c.pileup epoch
      ++ line (base ++ codes "lostRate") c.lost epoch
      ++ line (base ++ codes "satuRate") c.satu epoch
      ++ channel_lines prefix epoch cs

  unfoldable pub format_graphite : List (BoardRate R) → Text → Text → Text
  unfolding channel_lines
  format_graphite [] prefix epoch = []
  format_graphite (b ∷ rates) prefix epoch =
      line (prefix ++ codes ".bo_" ++ decimal b.board_reg_id ++ codes ".writeRate") b.write_rate
        epoch
      ++ channel_lines prefix epoch b.channels
      ++ format_graphite rates prefix epoch
