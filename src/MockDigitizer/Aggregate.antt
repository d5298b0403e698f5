-- ===== src/MockDigitizer/Aggregate.antt =====
-- The shape of an aggregate that is made up.
use caen_daq.Base.{
  ◌∙◌, get_elem?, some, ◌-◌, ◌/◌, ◌≤◌, List, [], length-append, ◌%◌, ◌<◌, ◌^◌, ◌∷◌, ap, arith,
  length, refl, suc, zero, ℕ, ◌*◌, ◌+◌, ◌≡◌,
}
use native.Mathlib.Nat.{mul-le-mul_left}
use caen_daq.Base.Words.{u32}
use caen_daq.MockDigitizer.{
  next_rand, sample_count, MockDigitizer, aggregate, data_word, event_time, mock_event_words,
  trace_words,
}
use caen_daq.Board.{DppType}

length-trace_words : (n s : ℕ) → length (trace_words n s) ≡ n
unfolding trace_words
length-trace_words zero s = refl
length-trace_words (suc n) s = ap suc (length-trace_words n (s + 2))

length-mock_event_words :
    (dpp : DppType) (trace_len base pair_step n e x : ℕ)
    → length (mock_event_words dpp trace_len base pair_step n e x).0 ≡ n * (2 + trace_len)
unfolding mock_event_words
length-mock_event_words dpp trace_len base pair_step zero e x = omega arith
length-mock_event_words dpp trace_len base pair_step (suc n) e x =
    let x1 = event_time base pair_step e x in
    let word = data_word dpp x1.1 in
    let rest = (mock_event_words dpp trace_len base pair_step n (e + 1) word.1).0 in
    let head = (e % 2 * 2 ^ 31 + x1.0 % 2 ^ 31) ∷ trace_words trace_len 0 in
    omega (
      arith,
      length-append head (word.0 ∷ rest),
      length-trace_words trace_len 0,
      length-mock_event_words dpp trace_len base pair_step n (e + 1) word.1,
    )

-- The size that the header of an aggregate states, in words.
abbrev pub stated_size : List ℕ → ℕ
stated_size [] = 0
stated_size (w ∷ ws) = w % 2 ^ 28

add_two : (k : ℕ) → k ≤ 2 ^ 19 → 2 + k ≤ 2 + 2 ^ 19
add_two k l = omega arith

product_below : (n k : ℕ) → n ≤ 31 → k ≤ 2 ^ 19 → n * (2 + k) ≤ 31 * (2 + 2 ^ 19)
product_below n k h l = omega (arith, mul-le-mul_left n (add_two k l))

-- The events of the aggregate, as words.
event_length :
    (s : MockDigitizer)
    → length (aggregate s).0 ≡ 6 + (8 + next_rand s.lfsr % 24) * (2 + sample_count s.opt / 2)
unfolding aggregate
event_length s = simp (length-mock_event_words) (omega arith)

-- Nothing wraps.
sizes :
    (m : ℕ)
    → m ≤ 31 * (2 + 2 ^ 19)
    → (6 + m ≡ (0xA0000000 + u32 (4 + u32 (2 + m)) % 2 ^ 28) % 2 ^ 28) × (u32 (2 + m) ≡ 2 + m)
sizes m h = (omega arith, omega arith)

-- An aggregate has as many words as its header states, and four words less in its only couple
-- than in all, as the couple's header states; for traces of less than 2^20 samples.
pub aggregate-framed :
    (s : MockDigitizer)
    → s.opt.trace_samples < 2 ^ 20
    → (length (aggregate s).0 ≡ stated_size (aggregate s).0)
      × (get_elem? (aggregate s).0 4 ≡ some (length (aggregate s).0 - 4))
unfolding aggregate
aggregate-framed s h =
    let x1 = next_rand s.lfsr in
    let events = 8 + x1 % 24 in
    let samples = sample_count s.opt in
    let some_samples : samples ≤ s.opt.trace_samples = ground arith in
    let m = events * (2 + samples / 2) in
    let (all, couple) =
      sizes m (product_below events (samples / 2) (omega arith) (omega (arith, some_samples, h))) in
    let words = event_length s in (words ∙ all, ap some (omega (arith, couple, words)))
