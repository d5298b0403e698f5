-- ===== src/Writer/Fresh.antt =====
-- uniquePath finds a free name, as long as there are fewer files than names to try.
use caen_daq.Base.{
  if-split, if◌then◌else◌, ◌||◌, ◌%◌, ◌/◌, ◌==◌, Bool-cases, ap, arith, inl, inr, false, length,
  refl, suc, sym, true, zero, ℕ, ◌+◌, ◌++◌, ◌<◌, ◌∙◌, ◌∷◌, ◌≡◌, ◌≤◌, [],
}
use mathlib.Core.List.{append_assoc}
use caen_daq.Board.{Text, codes}
use caen_daq.Writer.{Disk, exists, first_free, unique_path}
use caen_daq.Writer.Names.{
  candidate, decimal, digits_from, make_path, path_stem, same_text, same_text_iff,
}
use caen_daq.Cli.{dec_digit, value_in}
use caen_daq.Cli.Numbers.{value_in-digits}

digits_from-append :
    (fuel n : ℕ) (s t : Text) → digits_from fuel n (s ++ t) ≡ digits_from fuel n s ++ t
unfolding digits_from
digits_from-append zero n s t = refl
digits_from-append (suc fuel) n s t = elim (Bool-cases (n / 10 == 0)) [
  | inl e ↦ rw e refl
  | inr e ↦ rw e (digits_from-append fuel (n / 10) ((b'0' + n % 10) ∷ s) t)
]

-- The number that is read behind the stem of a candidate
number_in : Text → ℕ
number_in t = value_in 10 dec_digit 0 t

number_in-decimal : (n : ℕ) → number_in (decimal n ++ codes ".caendat") ≡ n
unfolding decimal value_in number_in
number_in-decimal n =
    ap (value_in 10 dec_digit 0) (sym (digits_from-append (n + 1) n [] (codes ".caendat")))
    ∙ value_in-digits (n + 1) n (codes ".caendat") (omega arith)

cancel : (s t u : Text) → s ++ t ≡ s ++ u → t ≡ u
cancel [] t u e = e
cancel (c ∷ s) t u e = cancel s t u (cc e)

candidate-injective : (stem : Text) (m n : ℕ) → candidate stem m ≡ candidate stem n → m ≡ n
unfolding candidate
candidate-injective stem m n e =
    let end = codes ".caendat" in
    let front = stem ++ codes "_" in
    let tails =
      cancel front (decimal m ++ end) (decimal n ++ end)
        (sym (append_assoc front (decimal m) end) ∙ e ∙ append_assoc front (decimal n) end) in
    sym (number_in-decimal m) ∙ ap number_in tails ∙ number_in-decimal n

candidate-differs :
    (stem : Text) (m n : ℕ) → m < n → same_text (candidate stem m) (candidate stem n) ≡ false
candidate-differs stem m n h = elim (Bool-cases (same_text (candidate stem m) (candidate stem n))) [
  | inl same ↦ absurd (
      omega (
        arith,
        h,
        candidate-injective stem m n ((same_text_iff (candidate stem m) (candidate stem n)).0 same),
      ))
  | inr e ↦ e
]

-- The files under other names
unfoldable without : Text → Disk → Disk
without p [] = []
without p ((q, bytes) ∷ d) = if same_text q p then without p d else (q, bytes) ∷ without p d

exists-without :
    (p r : Text) (d : Disk)
    → same_text p r ≡ false
    → exists r d ≡ true
    → exists r (without p d) ≡ true
unfolding exists without
exists-without p r [] other h = h
exists-without p r ((q, bytes) ∷ d) other h = elim (Bool-cases (same_text q p)) [
  | inl same ↦ rw same (
      exists-without p r d other
        (rest h (ap (λ (t : Text). same_text t r) ((same_text_iff q p).0 same) ∙ other)))
  | inr not_p ↦ rw not_p (elim (Bool-cases (same_text q r)) [
    | inl e ↦ rw e refl
    | inr e ↦ rw e (exists-without p r d other (rest h e))
  ])
]
  where
    rest : (same_text q r || exists r d) ≡ true → same_text q r ≡ false → exists r d ≡ true
    rest g e = ground (arith, g, e)

without-shorter : (p : Text) (d : Disk) → length (without p d) ≤ length d
unfolding without
without-shorter p [] = omega arith
without-shorter p ((q, bytes) ∷ d) = elim (Bool-cases (same_text q p)) [
  | inl e ↦ rw e (omega (arith, without-shorter p d))
  | inr e ↦ rw e (omega (arith, without-shorter p d))
]

without-length : (p : Text) (d : Disk) → exists p d ≡ true → length (without p d) < length d
unfolding exists without
without-length p [] h = cc h
without-length p ((q, bytes) ∷ d) h = elim (Bool-cases (same_text q p)) [
  | inl e ↦ rw e (omega (arith, without-shorter p d))
  | inr e ↦ rw e (omega (arith, without-length p d (later h e)))
]
  where
    later : (same_text q p || exists p d) ≡ true → same_text q p ≡ false → exists p d ≡ true
    later g e = ground (arith, g, e)

-- `e`: what may still take a name from the `n`-th candidate on.
first_free-fresh :
    (rounds n : ℕ) (stem p : Text) (d e : Disk)
    → ((m : ℕ) → n ≤ m → exists (candidate stem m) d ≡ true → exists (candidate stem m) e ≡ true)
    → length e < rounds
    → exists (first_free rounds n stem p d) d ≡ false
unfolding first_free
first_free-fresh zero n stem p d e taken few = absurd (omega (arith, few))
first_free-fresh (suc rounds) n stem p d e taken few =
    let c = candidate stem n in
    elim (Bool-cases (exists c d)) [
      | inr free ↦ rw free free
      | inl used ↦ rw used (
          first_free-fresh rounds (n + 1) stem p d (without c e)
            (λ m later here.
              exists-without c (candidate stem m) e
                (candidate-differs stem n m (omega (arith, later)))
                (taken m (omega (arith, later)) here))
            (omega (arith, without-length c e (taken n (omega arith) used), few)))
    ]

-- With fewer files than the names it may try, the name that uniquePath gives is free.
pub unique_path-fresh :
    (run cycle : ℕ) (d : Disk) → length d < 99999 → exists (unique_path run cycle d) d ≡ false
unfolding unique_path
unique_path-fresh run cycle d few =
    if-split (λ (p : Text). exists p d ≡ false) (exists (make_path run cycle) d)
      (λ used.
        first_free-fresh 99999 1 (path_stem run cycle) (make_path run cycle) d d (λ m h e. e) few)
      (λ free. free)
