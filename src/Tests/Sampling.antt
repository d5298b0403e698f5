-- ===== src/Tests/Sampling.antt =====
-- The rates of the statistics thread at concrete inputs.
use caen_daq.Base.{[], get_elem?, refl, some, suc, zero, ℕ, ◌∷◌, ◌≡◌}
use caen_daq.Stats.Rates.{BoardSample, ChannelSample, board_rate}
use caen_daq.Stats.Rates.Difference.{board_rate-difference}
use caen_daq.Board.{codes}

abbrev channel_at : ℕ → ChannelSample
channel_at n = record {
  board = 1;
  ch = 2;
  counts = record { events = n; pileup = n; lost = n; satu = n };
}

abbrev sampled : ℕ → BoardSample
sampled n = record {
  name = codes "b1";
  board_reg_id = 1;
  bytes_written = n;
  board_fail = 0;
  channels = channel_at n ∷ [];
}

-- Of a list with one entry, every entry is that one.
one_entry : {A : Type 0} (x : A) (j : ℕ) (y : A) → get_elem? (x ∷ []) j ≡ some y → y ≡ x
one_entry x zero y e = cc e
one_entry x (suc j) y e = cc e

board_rate-difference_example :
    (board_rate (λ n. n) 0 (sampled 100 ∷ []) (sampled 160)).write_rate ≡ 60
board_rate-difference_example =
    board_rate-difference (λ n. n) 0 (sampled 100 ∷ []) 0 (sampled 100) (sampled 160) refl refl
      (λ j q e same. one_entry (sampled 100) j q e)
