-- ===== src/HitTap.antt =====
-- include/caendaq/HitTap.hpp: the hits of one board for the coincidence builder.
pub mod Conservation
use caen_daq.Base.{
  Bool, List, [], false, if◌then◌else◌, length, ltb, not, take, ℕ, ◌%◌, ◌*◌, ◌++◌, ◌+◌, ◌-◌, ◌==◌,
  ◌^◌, ◌||◌,
}
use caen_daq.Event.{DecodedEvent}
use caen_daq.Base.Words.{flag, u64}
use caen_daq.Base.Int.{ℤ}

pub record Hit : Type 0 where
  pub time_ps : ℤ
  pub energy : ℕ  -- uint16
  pub channel : ℕ  -- uint8
  pub flags : ℕ  -- uint8: bit 0 pile-up, bit 1 saturated, bit 2 lost

pub record HitTap : Type 0 where
  pub enabled : Bool
  pub capacity : ℕ
  pub hits : List Hit
  pub dropped : ℕ  -- uint64

abbrev pub new_tap : HitTap
new_tap = record { enabled = false; capacity = 2 ^ 20; hits = []; dropped = 0 }

unfoldable pub set_enabled : Bool → HitTap → HitTap
set_enabled on t = record t { enabled = on; hits = if on then t.hits else [] }

unfoldable pub set_capacity : ℕ → HitTap → HitTap
set_capacity n t = record t { capacity = if n == 0 then 1 else n }

-- Hits that no longer fit are counted as dropped.
unfoldable pub append : List Hit → HitTap → HitTap
append batch t =
    if length batch == 0 || not t.enabled
    then t
    else (let room = if ltb (length t.hits) t.capacity then t.capacity - length t.hits else 0 in
        let n = if ltb (length batch) room then length batch else room in
        record t { hits = t.hits ++ take n batch; dropped = u64 (t.dropped + (length batch - n)) })

-- The consumer's batch, and the tap after it.
unfoldable pub take_hits : HitTap → List Hit × HitTap
take_hits t = (t.hits, record t { hits = [] })

unfoldable pub from_event : DecodedEvent → Hit
from_event e = record {
  time_ps = e.time_ps;
  energy = if e.energy == 0 then e.qlong else e.energy;
  channel = e.channel % 2 ^ 8;
  flags = flag e.pileup + flag e.satu * 2 + flag e.lost * 4;
}
