-- ===== src/Histogram.antt =====
-- src/HistogramStore.cpp and include/caendaq/HistogramStore.hpp: the spectra of each channel.
-- Two computations in `double` are parameters: the bin of the PSD ratio and that of a time
-- difference.
mod Lookup
pub mod Bins
pub mod Totals
use caen_daq.Base.{
  List, Option, [], if◌then◌else◌, leb, length, ltb, none, not, replicate, some, suc, zero, ℕ, ◌%◌,
  ◌&&◌, ◌*◌, ◌+◌, ◌-◌, ◌/◌, ◌==◌, ◌^◌, ◌∷◌,
}
use caen_daq.Base.Int.{ltb_ℤ, negsuc, pos_part, ℤ, pos}
use caen_daq.Base.Words.{flag, u32, u64}
use caen_daq.Event.{DecodedEvent}

abbrev pub energy_bins : ℕ
energy_bins = 32768

abbrev pub qshort_bins : ℕ
qshort_bins = 32768

abbrev pub qlong_bins : ℕ
qlong_bins = 65536

abbrev pub psd_x_bins : ℕ
psd_x_bins = 2048

abbrev pub psd_y_bins : ℕ
psd_y_bins = 256

abbrev pub qlong_max : ℕ
qlong_max = 65536

abbrev pub interval_bins : ℕ
interval_bins = 1000

-- `static_cast<std::size_t>(ratio * kPsdYBins)` with `ratio = 1 - qshort / qlong` held to
-- [0, 1], and `floor(log10(ns) * kIntervalBinsPerDecade)` of a difference in ps.
pub record Floats : Type 0 where
  pub ratio_bin : ℕ → ℕ → ℕ
  pub log_bin : ℕ → ℤ

pub record Counts : Type 0 where
  pub events : ℕ
  pub pileup : ℕ
  pub lost : ℕ
  pub satu : ℕ

abbrev pub no_counts : Counts
no_counts = record { events = 0; pileup = 0; lost = 0; satu = 0 }

-- A spectrum is empty until it is first needed; its bins are `uint32_t`.
pub record Channel : Type 0 where
  pub energy : List ℕ
  pub qshort : List ℕ
  pub qlong : List ℕ
  pub psd : List ℕ
  pub interval : List ℕ
  pub last_time_ps : ℤ
  pub last_wave : List ℕ
  pub last_wave_good : List ℕ
  pub last_wave_pileup : List ℕ
  pub last_wave_satu : List ℕ
  pub counts : Counts

abbrev pub new_channel : Channel
new_channel = record {
  energy = [];
  qshort = [];
  qlong = [];
  psd = [];
  interval = [];
  last_time_ps = negsuc 0;
  last_wave = [];
  last_wave_good = [];
  last_wave_pileup = [];
  last_wave_satu = [];
  counts = no_counts;
}

-- `++v[i]` on `uint32_t`
unfoldable pub bump : List ℕ → ℕ → List ℕ
bump [] i = []
bump (x ∷ v) zero = u32 (x + 1) ∷ v
bump (x ∷ v) (suc i) = x ∷ bump v i

-- `if (v.empty()) v.assign(n, 0);`
unfoldable pub allocate : ℕ → List ℕ → List ℕ
allocate n [] = replicate n 0
allocate n (x ∷ v) = x ∷ v

unfoldable pub fill_energy : DecodedEvent → Channel → Channel
unfolding bump allocate
fill_energy e c =
    if e.energy == 0
    then c
    else (let v = allocate energy_bins c.energy in
        record c { energy = if ltb e.energy energy_bins then bump v e.energy else v })

-- The bin of the 2D histogram.
abbrev pub psd_bin : Floats → ℕ → ℕ → ℕ
psd_bin floats qshort qlong =
    let xb = qlong * psd_x_bins / qlong_max in
    let yb = floats.ratio_bin qshort qlong in
    (if leb psd_x_bins xb then psd_x_bins - 1 else xb) * psd_y_bins
    + (if leb psd_y_bins yb then psd_y_bins - 1 else yb)

unfoldable pub fill_charge : Floats → DecodedEvent → Channel → Channel
unfolding bump allocate
fill_charge floats e c =
    if e.qshort == 0 && e.qlong == 0
    then c
    else (let qs = allocate qshort_bins c.qshort in
        let ql = allocate qlong_bins c.qlong in
        record c {
          qshort = if ltb e.qshort qshort_bins then bump qs e.qshort else qs;
          qlong = bump ql e.qlong;
          psd =
              if ltb 0 e.qlong
              then bump (allocate (psd_x_bins * psd_y_bins) c.psd) (psd_bin floats e.qshort e.qlong)
              else c.psd;
        })

-- The bin of a time difference in ps, held to the axis.
unfoldable pub interval_bin : Floats → ℕ → ℕ
interval_bin floats dt = within (floats.log_bin dt)
  where
    within : ℤ → ℕ
    within (negsuc n) = 0
    within (pos n) = if leb interval_bins n then interval_bins - 1 else n

unfoldable pub fill_interval : Floats → DecodedEvent → Channel → Channel
unfolding bump allocate interval_bin
fill_interval floats e c =
    if ltb_ℤ (pos 0) e.time_ps
    then record c {
      interval =
          if not (ltb_ℤ c.last_time_ps (pos 0)) && ltb_ℤ c.last_time_ps e.time_ps
          then bump (allocate interval_bins c.interval)
              (interval_bin floats (pos_part e.time_ps - pos_part c.last_time_ps))
          else c.interval;
      last_time_ps = if ltb_ℤ c.last_time_ps e.time_ps then e.time_ps else c.last_time_ps;
    }
    else c

-- A saturated pile-up event belongs to both kinds.
unfoldable pub fill_wave : DecodedEvent → Channel → Channel
fill_wave e c = if length e.wave == 0 then c else record c {
  last_wave = e.wave;
  last_wave_pileup = if e.pileup then e.wave else c.last_wave_pileup;
  last_wave_satu = if e.satu then e.wave else c.last_wave_satu;
  last_wave_good = if not e.pileup && not e.satu then e.wave else c.last_wave_good;
}

-- uint64 counters
unfoldable pub count_event : DecodedEvent → Counts → Counts
count_event e n = record {
  events = u64 (n.events + 1);
  pileup = u64 (n.pileup + flag e.pileup);
  lost = u64 (n.lost + flag e.lost);
  satu = u64 (n.satu + flag e.satu);
}

unfoldable pub fill_channel : Floats → DecodedEvent → Channel → Channel
unfolding fill_energy fill_charge fill_interval fill_wave count_event
fill_channel floats e c =
    let filled = fill_wave e (fill_interval floats e (fill_charge floats e (fill_energy e c))) in
    record filled { counts = count_event e filled.counts }

-- The map from `key(board, ch)` to the channel, by ascending key as in a `std::map`.
abbrev pub HistogramStore : Type 0
HistogramStore = List (ℕ × Channel)

abbrev pub key : ℕ → ℕ → ℕ
key board ch = u32 (board * 2 ^ 16) + ch

unfoldable pub find_channel : ℕ → HistogramStore → Option Channel
find_channel k [] = none
find_channel k ((j, c) ∷ m) = if j == k then some c else find_channel k m

-- `ch_[k]`, changed by `f`: a missing channel is first inserted, new.
unfoldable pub update_channel : ℕ → (Channel → Channel) → HistogramStore → HistogramStore
update_channel k f [] = (k, f new_channel) ∷ []
update_channel k f ((j, c) ∷ m) =
    if j == k
    then (k, f c) ∷ m
    else (if ltb k j then (k, f new_channel) ∷ (j, c) ∷ m else (j, c) ∷ update_channel k f m)

unfoldable pub fill : Floats → DecodedEvent → HistogramStore → HistogramStore
unfolding update_channel fill_channel
fill floats e m = update_channel (key e.board e.channel) (fill_channel floats e) m

unfoldable pub counts_of : ℕ → ℕ → HistogramStore → Counts
unfolding find_channel
counts_of board ch m = elim (find_channel (key board ch) m) [ none ↦ no_counts | some c ↦ c.counts ]

unfoldable pub energy_of : ℕ → ℕ → HistogramStore → List ℕ
unfolding find_channel
energy_of board ch m = elim (find_channel (key board ch) m) [ none ↦ [] | some c ↦ c.energy ]

unfoldable pub channels_of : HistogramStore → List (ℕ × ℕ)
channels_of [] = []
channels_of ((k, c) ∷ m) = (k / 2 ^ 16, k % 2 ^ 16) ∷ channels_of m

-- The other snapshots: each is empty for a channel that was never filled.
unfoldable pub qshort_of : ℕ → ℕ → HistogramStore → List ℕ
unfolding find_channel
qshort_of board ch m = elim (find_channel (key board ch) m) [ none ↦ [] | some c ↦ c.qshort ]

unfoldable pub qlong_of : ℕ → ℕ → HistogramStore → List ℕ
unfolding find_channel
qlong_of board ch m = elim (find_channel (key board ch) m) [ none ↦ [] | some c ↦ c.qlong ]

unfoldable pub psd_of : ℕ → ℕ → HistogramStore → List ℕ
unfolding find_channel
psd_of board ch m = elim (find_channel (key board ch) m) [ none ↦ [] | some c ↦ c.psd ]

unfoldable pub interval_of : ℕ → ℕ → HistogramStore → List ℕ
unfolding find_channel
interval_of board ch m = elim (find_channel (key board ch) m) [ none ↦ [] | some c ↦ c.interval ]

pub data WaveKind : Type 0 where
  any_wave good_wave pileup_wave saturated_wave : WaveKind

abbrev pub wave_of_kind : WaveKind → Channel → List ℕ
wave_of_kind any_wave c = c.last_wave
wave_of_kind good_wave c = c.last_wave_good
wave_of_kind pileup_wave c = c.last_wave_pileup
wave_of_kind saturated_wave c = c.last_wave_satu

unfoldable pub waveform_of : ℕ → ℕ → WaveKind → HistogramStore → List ℕ
unfolding find_channel
waveform_of board ch kind m = elim (find_channel (key board ch) m) [
  | none ↦ []
  | some c ↦ wave_of_kind kind c
]

unfoldable pub events_of : ℕ → ℕ → HistogramStore → ℕ
unfolding find_channel
events_of board ch m = elim (find_channel (key board ch) m) [ none ↦ 0 | some c ↦ c.counts.events ]

unfoldable pub reset : HistogramStore → HistogramStore
reset m = []
