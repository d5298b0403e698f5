-- ===== src/Stats/Prefix.antt =====
-- A metric prefix is a path without empty segments at its ends.
use caen_daq.Base.{
  All, Bool, Bool-cases, [], arith, false, if◌then◌else◌, inl, inr, length, map, refl, true, ℕ,
  ◌&&◌, ◌<◌, ◌==◌, ◌||◌, ◌∷◌, ◌≡◌,
}
use caen_daq.Board.{Text, codes}
use caen_daq.Stats.{clean_char, is_alnum, sanitize_prefix, trim_back, trim_front}

-- What Graphite takes in a path.
abbrev pub IsClean : ℕ → Type 0
IsClean c = (is_alnum c || c == b'.' || c == b'-' || c == b'_') ≡ true

abbrev pub starts_with_dot : Text → Bool
starts_with_dot [] = false
starts_with_dot (c ∷ s) = c == b'.'

abbrev pub ends_with_dot : Text → Bool
ends_with_dot [] = false
ends_with_dot (c ∷ s) = if length s == 0 then c == b'.' else ends_with_dot s

clean_char-IsClean : (c : ℕ) → IsClean (clean_char c)
clean_char-IsClean c = elim (Bool-cases (is_alnum c || c == b'.' || c == b'-')) [
  | inl kept ↦ rw kept (ground arith)
  | inr replaced ↦ rw replaced refl
]

map-clean_char_lem : (s : Text) → All IsClean (map clean_char s)
map-clean_char_lem [] = tt
map-clean_char_lem (c ∷ s) = (clean_char-IsClean c, map-clean_char_lem s)

trim_front-lem :
    (s : Text)
    → All IsClean s
    → All IsClean (trim_front s) × (starts_with_dot (trim_front s) ≡ false)
unfolding trim_front
trim_front-lem [] a = (tt, refl)
trim_front-lem (c ∷ s) a = elim (Bool-cases (c == b'.')) [
  | inl dot ↦ rw dot (trim_front-lem s a.1)
  | inr other ↦ rw other (a, other)
]

trim_back-lem :
    (s : Text)
    → All IsClean s
    → All IsClean (trim_back s)
      × (ends_with_dot (trim_back s) ≡ false)
      × (starts_with_dot s ≡ false → starts_with_dot (trim_back s) ≡ false)
unfolding trim_back
trim_back-lem [] a = (tt, refl, λ h. h)
trim_back-lem (c ∷ s) a =
    let (clean, ends, starts) = trim_back-lem s a.1 in
    elim (Bool-cases (c == b'.' && length (trim_back s) == 0)) [
      | inl cut ↦ rw cut (tt, refl, λ h. refl)
      | inr kept ↦ rw kept ((a.0, clean), ground (arith, ends), λ h. h)
    ]

-- Whatever prefix is asked for, the one that is used is not empty, holds only letters, digits,
-- dots, dashes and underscores, and neither starts nor ends with a dot.
pub sanitize_prefix_lem :
    (s : Text)
    → (0 < length (sanitize_prefix s))
      × All IsClean (sanitize_prefix s)
      × (starts_with_dot (sanitize_prefix s) ≡ false)
      × (ends_with_dot (sanitize_prefix s) ≡ false)
unfolding sanitize_prefix
sanitize_prefix_lem s =
    let (clean, starts) = trim_front-lem (map clean_char s) (map-clean_char_lem s) in
    let (clean', ends, starts') = trim_back-lem (trim_front (map clean_char s)) clean in
    elim (Bool-cases (length (trim_back (trim_front (map clean_char s))) == 0)) [
      | inl empty ↦ rw empty (omega arith, map-clean_char_lem (codes "ancillary.rates"), refl, refl)
      | inr some_text ↦ rw some_text (ground arith, clean', starts' starts, ends)
    ]
