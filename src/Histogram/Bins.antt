-- ===== src/Histogram/Bins.antt =====
-- The bins of a spectrum before and after an event.
use caen_daq.Base.{
  Bool-cases, List, [], ap, arith, if◌then◌else◌, inl, inr, length, length-replicate, ltb, ltb→lt,
  refl, replicate, suc, zero, ℕ, ◌&&◌, ◌+◌, ◌<◌, ◌==◌, ◌∙◌, ◌∷◌, ◌≡◌, ◌⊎◌,
}
use caen_daq.Base.Int.{ltb_ℤ, pos}
use caen_daq.Base.Words.{u32}
use caen_daq.Event.{DecodedEvent}
use caen_daq.Histogram.{
  Channel, Floats, allocate, bump, count_event, energy_bins, fill_channel, fill_charge, fill_energy,
  fill_interval, fill_wave,
}

unfoldable pub bin : ℕ → List ℕ → ℕ
bin i [] = 0
bin zero (x ∷ v) = x
bin (suc i) (x ∷ v) = bin i v

bump-bin :
    (v : List ℕ) (i k : ℕ)
    → i < length v
    → bin k (bump v i) ≡ (if i == k then u32 (bin k v + 1) else bin k v)
unfolding bump bin
bump-bin [] i k h = absurd (omega arith)
bump-bin (x ∷ v) zero zero h = refl
bump-bin (x ∷ v) zero (suc k) h = ground arith
bump-bin (x ∷ v) (suc i) zero h = ground arith
bump-bin (x ∷ v) (suc i) (suc k) h = ground (arith, bump-bin v i k)

length-bump : (v : List ℕ) (i : ℕ) → length (bump v i) ≡ length v
unfolding bump
length-bump [] i = refl
length-bump (x ∷ v) zero = refl
length-bump (x ∷ v) (suc i) = ap suc (length-bump v i)

replicate-bin : (n k : ℕ) → bin k (replicate n 0) ≡ 0
unfolding bin
replicate-bin zero k = refl
replicate-bin (suc n) zero = refl
replicate-bin (suc n) (suc k) = replicate-bin n k

allocate-bin : (n k : ℕ) (v : List ℕ) → bin k (allocate n v) ≡ bin k v
unfolding allocate bin
allocate-bin n k [] = replicate-bin n k
allocate-bin n k (x ∷ v) = refl

-- A spectrum is not allocated yet, or has all its bins.
abbrev pub HasBins : ℕ → List ℕ → Type 0
HasBins n v = (length v ≡ 0) ⊎ (length v ≡ n)

allocate-length : (n : ℕ) (v : List ℕ) → HasBins n v → length (allocate n v) ≡ n
unfolding allocate
allocate-length n [] h = length-replicate n 0
allocate-length n (x ∷ v) (inl none_yet) = absurd (omega arith)
allocate-length n (x ∷ v) (inr full) = full

-- Only the energy spectrum's own step changes it, and every event is counted.
fill_charge-energy :
    (floats : Floats) (e : DecodedEvent) (c : Channel)
    → ((fill_charge floats e c).energy ≡ c.energy) × ((fill_charge floats e c).counts ≡ c.counts)
unfolding fill_charge
fill_charge-energy floats e c = elim (Bool-cases (e.qshort == 0 && e.qlong == 0)) [
  | inl skipped ↦ rw skipped (refl, refl)
  | inr filled ↦ rw filled (refl, refl)
]

fill_interval-energy :
    (floats : Floats) (e : DecodedEvent) (c : Channel)
    → ((fill_interval floats e c).energy ≡ c.energy)
      × ((fill_interval floats e c).counts ≡ c.counts)
unfolding fill_interval
fill_interval-energy floats e c = elim (Bool-cases (ltb_ℤ (pos 0) e.time_ps)) [
  | inl timed ↦ rw timed (refl, refl)
  | inr untimed ↦ rw untimed (refl, refl)
]

fill_wave-energy :
    (e : DecodedEvent) (c : Channel)
    → ((fill_wave e c).energy ≡ c.energy) × ((fill_wave e c).counts ≡ c.counts)
unfolding fill_wave
fill_wave-energy e c = elim (Bool-cases (length e.wave == 0)) [
  | inl bare ↦ rw bare (refl, refl)
  | inr traced ↦ rw traced (refl, refl)
]

fill_energy-counts : (e : DecodedEvent) (c : Channel) → (fill_energy e c).counts ≡ c.counts
unfolding fill_energy
fill_energy-counts e c = elim (Bool-cases (e.energy == 0)) [
  | inl none_sent ↦ rw none_sent refl
  | inr sent ↦ rw sent refl
]

pub fill_channel-energy :
    (floats : Floats) (e : DecodedEvent) (c : Channel)
    → ((fill_channel floats e c).energy ≡ (fill_energy e c).energy)
      × ((fill_channel floats e c).counts ≡ count_event e c.counts)
unfolding fill_channel
fill_channel-energy floats e c =
    let c1 = fill_energy e c in
    let c2 = fill_charge floats e c1 in
    let c3 = fill_interval floats e c2 in
    (
      (fill_wave-energy e c3).0
          ∙ (fill_interval-energy floats e c2).0
          ∙ (fill_charge-energy floats e c1).0,
      ap (count_event e) (
          (fill_wave-energy e c3).1
          ∙ (fill_interval-energy floats e c2).1
          ∙ (fill_charge-energy floats e c1).1
          ∙ fill_energy-counts e c),
    )

pub fill_energy-bin :
    (e : DecodedEvent) (c : Channel) (k : ℕ)
    → HasBins energy_bins c.energy
    → 0 < k
    → k < energy_bins
    → HasBins energy_bins (fill_energy e c).energy
      × (bin k (fill_energy e c).energy
          ≡ (if e.energy == k then u32 (bin k c.energy + 1) else bin k c.energy))
unfolding fill_energy
fill_energy-bin e c k h some_energy below = elim (Bool-cases (e.energy == 0)) [
  | inl none_sent ↦ rw none_sent (h, ground arith)
  | inr sent ↦ elim (Bool-cases (ltb e.energy energy_bins)) [
    | inl inside ↦
        rw (sent, inside)
          (
            inr (length-bump (allocate energy_bins c.energy) e.energy ∙ full),
            bump-bin (allocate energy_bins c.energy) e.energy k
                  (omega (arith, full, ltb→lt e.energy energy_bins inside))
                ∙ rw (allocate-bin energy_bins k c.energy) refl,
          )
    | inr outside ↦
        rw (sent, outside) (inr full, allocate-bin energy_bins k c.energy ∙ ground arith)
  ]
]
  where
    full : length (allocate energy_bins c.energy) ≡ energy_bins
    full = allocate-length energy_bins c.energy h
