-- ===== src/Writer/Names.antt =====
-- The names of the part files: makePath and the candidates of uniquePath.
use caen_daq.Base.{
  Bool, [], arith, false, if◌then◌else◌, length, refl, replicate, suc, true, zero, ℕ, ◌%◌, ◌&&◌,
  ◌++◌, ◌+◌, ◌-◌, ◌/◌, ◌==◌, ◌↔◌, ◌∷◌, ◌≡◌,
}
use caen_daq.Board.{Text, codes}

-- The decimal digits of a number, as `std::ostringstream` and `std::to_string` print it.
unfoldable pub digits_from : ℕ → ℕ → Text → Text
digits_from zero n acc = acc
digits_from (suc fuel) n acc =
    let more = digits_from fuel (n / 10) ((b'0' + n % 10) ∷ acc) in
    if n / 10 == 0 then (b'0' + n % 10) ∷ acc else more

unfoldable pub decimal : ℕ → Text
unfolding digits_from
decimal n = digits_from (n + 1) n []

-- `std::setw(4) << std::setfill('0')`
unfoldable pub decimal_four : ℕ → Text
unfolding decimal
decimal_four n = replicate (4 - length (decimal n)) b'0' ++ decimal n

-- `p.stem()` of the path below
unfoldable pub path_stem : ℕ → ℕ → Text
unfolding decimal_four
path_stem run cycle = codes "run_" ++ decimal run ++ codes "_" ++ decimal_four cycle

unfoldable pub make_path : ℕ → ℕ → Text
unfolding path_stem
make_path run cycle = path_stem run cycle ++ codes ".caendat"

unfoldable pub candidate : Text → ℕ → Text
unfolding decimal
candidate stem n = stem ++ codes "_" ++ decimal n ++ codes ".caendat"

unfoldable pub same_text : Text → Text → Bool
same_text [] [] = true
same_text (a ∷ s) (b ∷ t) = a == b && same_text s t
same_text _ _ = false

pub same_text_iff : (s t : Text) → (same_text s t ≡ true) ↔ (s ≡ t)
unfolding same_text
same_text_iff [] [] = (λ _. refl, λ _. refl)
same_text_iff [] (b ∷ t) = (λ e. cc, λ e. cc)
same_text_iff (a ∷ s) [] = (λ e. cc, λ e. cc)
same_text_iff (a ∷ s) (b ∷ t) =
    (λ e. ground (arith, same_text_iff s t), λ e. ground (arith, same_text_iff s t))
