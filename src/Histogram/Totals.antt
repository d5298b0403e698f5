-- ===== src/Histogram/Totals.antt =====
-- What the spectra and the counters hold after any sequence of events.
-- The store after a run of events, with the latest event first.
use caen_daq.Base.{
  ap, arith, refl, All, Bool, Bool-cases, List, [], if◌then◌else◌, inl, inr, sym, ℕ, ◌&&◌, ◌+◌, ◌<◌,
  ◌==◌, ◌^◌, ◌∷◌, ◌≡◌,
}
use caen_daq.Base.Words.{flag, u64}
use caen_daq.Histogram.{
  Channel, Counts, count_event, Floats, HistogramStore, counts_of, fill, fill_channel, key,
}
use caen_daq.Histogram.Bins.{fill_channel-energy}
use caen_daq.Histogram.Lookup.{
  IsSorted, channel_at, counts_of_lem, fill-channel_at, key-inj, update-IsSorted,
}
use caen_daq.Event.{DecodedEvent}

unfoldable pub fill_all : Floats → List DecodedEvent → HistogramStore
unfolding fill
fill_all floats [] = []
fill_all floats (e ∷ es) = fill floats e (fill_all floats es)

abbrev pub same_channel : ℕ → ℕ → DecodedEvent → Bool
same_channel board ch e = e.board == board && e.channel == ch

-- How many of the events are of this channel, and of this energy.
abbrev pub events_in : ℕ → ℕ → List DecodedEvent → ℕ
events_in board ch [] = 0
events_in board ch (e ∷ es) = flag (same_channel board ch e) + events_in board ch es

abbrev pub energies_in : ℕ → ℕ → ℕ → List DecodedEvent → ℕ
energies_in board ch k [] = 0
energies_in board ch k (e ∷ es) =
    flag (same_channel board ch e && e.energy == k) + energies_in board ch k es

-- The board and the channel of an event are `uint16_t`.
abbrev pub InRange : DecodedEvent → Type 0
InRange e = (e.board < 2 ^ 16) × (e.channel < 2 ^ 16)

fill_all-IsSorted : (floats : Floats) (es : List DecodedEvent) → IsSorted (fill_all floats es)
unfolding fill_all
fill_all-IsSorted floats [] = tt
fill_all-IsSorted floats (e ∷ es) =
    update-IsSorted (key e.board e.channel) (fill_channel floats e) (fill_all floats es)
      (fill_all-IsSorted floats es)

step-channel_at :
    (floats : Floats) (e : DecodedEvent) (es : List DecodedEvent) (board ch : ℕ)
    → InRange e
    → board < 2 ^ 16
    → ch < 2 ^ 16
    → channel_at (key board ch) (fill_all floats (e ∷ es)) ≡ (
        if same_channel board ch e
        then fill_channel floats e (channel_at (key board ch) (fill_all floats es))
        else channel_at (key board ch) (fill_all floats es))
unfolding fill_all
step-channel_at floats e es board ch r hb hc =
    rw (sym (key-inj e.board e.channel board ch r.0 r.1 hb hc))
      (fill-channel_at floats e (key board ch) (fill_all floats es) (fill_all-IsSorted floats es))

counted_events :
    (floats : Floats) (e : DecodedEvent) (c : Channel)
    → (fill_channel floats e c).counts.events ≡ u64 (c.counts.events + 1)
unfolding count_event
counted_events floats e c = ap (λ (n : Counts). n.events) (fill_channel-energy floats e c).1

events_so_far :
    (floats : Floats) (es : List DecodedEvent) (board ch : ℕ)
    → All InRange es
    → board < 2 ^ 16
    → ch < 2 ^ 16
    → (channel_at (key board ch) (fill_all floats es)).counts.events ≡ u64 (events_in board ch es)
unfolding fill_all channel_at
events_so_far floats [] board ch r hb hc = refl
events_so_far floats (e ∷ es) board ch r hb hc = elim (Bool-cases (same_channel board ch e)) [
  | inl mine ↦
      rw (step-channel_at floats e es board ch r.0 hb hc, mine)
        (omega (
          arith,
          counted_events floats e (channel_at (key board ch) (fill_all floats es)),
          events_so_far floats es board ch r.1 hb hc,
        ))
  | inr other ↦
      rw (step-channel_at floats e es board ch r.0 hb hc, other)
        (omega (arith, events_so_far floats es board ch r.1 hb hc))
]

-- The event counter of a channel is the number of its events in the run, modulo 2^64, whatever
-- other channels received in between. Boards and channels have 16-bit numbers.
pub fill_all-events :
    (floats : Floats) (es : List DecodedEvent) (board ch : ℕ)
    → All InRange es
    → board < 2 ^ 16
    → ch < 2 ^ 16
    → (counts_of board ch (fill_all floats es)).events ≡ u64 (events_in board ch es)
fill_all-events floats es board ch r hb hc =
    rw (counts_of_lem board ch (fill_all floats es)) (events_so_far floats es board ch r hb hc)
