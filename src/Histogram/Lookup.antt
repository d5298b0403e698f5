-- ===== src/Histogram/Lookup.antt =====
-- Finding a channel in a store that events are filled into.
use caen_daq.Base.{
  All, Bool-cases, Option, [], arith, if◌then◌else◌, inl, inr, ltb, none, refl, some, sym, ℕ, ◌&&◌,
  ◌<◌, ◌==◌, ◌^◌, ◌∷◌, ◌≡◌,
}
use caen_daq.Event.{DecodedEvent}
use caen_daq.Histogram.{
  Channel, Floats, HistogramStore, counts_of, energy_of, fill, fill_channel, find_channel, key,
  new_channel, update_channel, no_counts,
}

-- The channel under a key; a channel that was never filled counts as new.
unfoldable pub channel_at : ℕ → HistogramStore → Channel
channel_at k [] = new_channel
channel_at k ((j, c) ∷ m) = if j == k then c else channel_at k m

found : Option Channel → Channel
found none = new_channel
found (some c) = c

find_lem : (k : ℕ) (m : HistogramStore) → found (find_channel k m) ≡ channel_at k m
unfolding found find_channel channel_at
find_lem k [] = refl
find_lem k ((j, c) ∷ m) = ground (arith, find_lem k m)

pub counts_of_lem :
    (board ch : ℕ) (m : HistogramStore)
    → counts_of board ch m ≡ (channel_at (key board ch) m).counts
unfolding counts_of found
counts_of_lem board ch m = rw (sym (find_lem (key board ch) m)) (go (find_channel (key board ch) m))
  where
    go : (o : Option Channel) → elim o [ none ↦ no_counts | some c ↦ c.counts ] ≡ (found o).counts
    go none = refl
    go (some c) = refl

pub energy_of_lem :
    (board ch : ℕ) (m : HistogramStore)
    → energy_of board ch m ≡ (channel_at (key board ch) m).energy
unfolding energy_of found
energy_of_lem board ch m = rw (sym (find_lem (key board ch) m)) (go (find_channel (key board ch) m))
  where
    go : (o : Option Channel) → elim o [ none ↦ [] | some c ↦ c.energy ] ≡ (found o).energy
    go none = refl
    go (some c) = refl

-- The keys ascend, as in a `std::map`.
abbrev pub IsSorted : HistogramStore → Type 0
IsSorted [] = Unit
IsSorted ((j, c) ∷ m) = All (λ (e : ℕ × Channel). j < e.0) m × IsSorted m

above-channel_at :
    (k : ℕ) (m : HistogramStore)
    → All (λ (e : ℕ × Channel). k < e.0) m
    → channel_at k m ≡ new_channel
unfolding channel_at
above-channel_at k [] h = refl
above-channel_at k ((j, c) ∷ m) h = ground (arith, above-channel_at k m h.1)

above_trans :
    (k j : ℕ) (m : HistogramStore)
    → k < j
    → All (λ (e : ℕ × Channel). j < e.0) m
    → All (λ (e : ℕ × Channel). k < e.0) m
above_trans k j [] h a = tt
above_trans k j ((i, c) ∷ m) h a = (omega (arith, a.0), above_trans k j m h a.1)

update-channel_at :
    (j k : ℕ) (f : Channel → Channel) (m : HistogramStore)
    → IsSorted m
    → channel_at k (update_channel j f m) ≡ (if j == k then f (channel_at k m) else channel_at k m)
unfolding channel_at update_channel
update-channel_at j k f [] s = refl
update-channel_at j k f ((i, c) ∷ m) s = elim (Bool-cases (i == j)) [
  | inl same ↦ rw same (ground arith)
  | inr other ↦ elim (Bool-cases (ltb j i)) [
    | inl before ↦
        rw (other, before)
          (ground (arith, above-channel_at j m (above_trans j i m (ground arith) s.0)))
    | inr after ↦ rw (other, after) (ground (arith, update-channel_at j k f m s.1))
  ]
]

update-above :
    (i j : ℕ) (f : Channel → Channel) (m : HistogramStore)
    → i < j
    → All (λ (e : ℕ × Channel). i < e.0) m
    → All (λ (e : ℕ × Channel). i < e.0) (update_channel j f m)
unfolding update_channel
update-above i j f [] h a = (h, tt)
update-above i j f ((l, c) ∷ m) h a = ground (arith, update-above i j f m h a.1)

pub update-IsSorted :
    (j : ℕ) (f : Channel → Channel) (m : HistogramStore)
    → IsSorted m
    → IsSorted (update_channel j f m)
unfolding update_channel
update-IsSorted j f [] s = (tt, tt)
update-IsSorted j f ((i, c) ∷ m) s =
    ground (arith, update-IsSorted j f m s.1, update-above i j f m, above_trans j i m)

-- The channel of an event's key is filled with it, and every other channel stays.
pub fill-channel_at :
    (floats : Floats) (e : DecodedEvent) (k : ℕ) (m : HistogramStore)
    → IsSorted m
    → channel_at k (fill floats e m) ≡ (
        if key e.board e.channel == k
        then fill_channel floats e (channel_at k m)
        else channel_at k m)
unfolding fill
fill-channel_at floats e k m s =
    update-channel_at (key e.board e.channel) k (fill_channel floats e) m s

-- Two channels with 16-bit numbers have different keys.
pub key-inj :
    (board ch board' ch' : ℕ)
    → board < 2 ^ 16
    → ch < 2 ^ 16
    → board' < 2 ^ 16
    → ch' < 2 ^ 16
    → (key board ch == key board' ch') ≡ (board == board' && ch == ch')
key-inj board ch board' ch' hb hc hb' hc' = ground arith
