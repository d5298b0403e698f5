-- ===== src/Stats.antt =====
-- src/StatsCollector.cpp: the settings of the statistics thread that decide where and how often
-- it reports.
pub mod Prefix
pub mod Rates
pub mod Collector
pub mod Ticks
use caen_daq.Base.{ltb, Bool, [], if◌then◌else◌, leb, length, map, ℕ, ◌&&◌, ◌==◌, ◌||◌, ◌∷◌}
use caen_daq.Base.Int.{negsuc, ℤ, pos}
use caen_daq.Board.{codes, Text}

-- `std::isalnum` in the C locale
abbrev pub is_alnum : ℕ → Bool
is_alnum c = (leb b'0' c && leb c b'9') || (leb b'A' c && leb c b'Z') || (leb b'a' c && leb c b'z')

abbrev pub clean_char : ℕ → ℕ
clean_char c = if is_alnum c || c == b'.' || c == b'-' then c else b'_'

-- `find_first_not_of('.')`: what stands before it is cut off.
unfoldable pub trim_front : Text → Text
trim_front [] = []
trim_front (c ∷ s) = if c == b'.' then trim_front s else c ∷ s

-- `find_last_not_of('.')`: what stands behind it is cut off.
unfoldable pub trim_back : Text → Text
trim_back [] = []
trim_back (c ∷ s) = let rest = trim_back s in if c == b'.' && length rest == 0 then [] else c ∷ rest

unfoldable pub sanitize_prefix : Text → Text
unfolding trim_front trim_back
sanitize_prefix s =
    let trimmed = trim_back (trim_front (map clean_char s)) in
    if length trimmed == 0 then codes "ancillary.rates" else trimmed

-- `clampInterval`, in ms
unfoldable pub clamp_interval : ℤ → ℕ
clamp_interval (negsuc n) = 100
clamp_interval (pos ms) = if ltb ms 100 then 100 else (if ltb 600000 ms then 600000 else ms)
