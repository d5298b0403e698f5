-- ===== src/HitTap/Conservation.antt =====
-- The batches that a consumer takes, against the hits that the decode thread appended.
use caen_daq.Base.{
  false, sym, if◌then◌else◌, ltb, refl, arith, length-append, length-take, min, ◌-◌, Bool-cases,
  inl, inr, length, not, suc, take, true, zero, ℕ, ◌+◌, ◌<◌, ◌==◌, ◌^◌, ◌||◌, ◌≡◌, ◌≤◌, List, [],
  ◌++◌, ◌∷◌,
}
use caen_daq.Base.Words.{u64}
use mathlib.Core.List.{append_assoc, append-nil, Sublist, sublist-append_left}
use caen_daq.HitTap.{Hit, HitTap, append, take_hits}
use mathlib.Core.List.Sublist

-- What happens to the tap during a run: a block's hits, or a consumer.
pub data Op : Type 0 where
  appends : List Hit → Op
  takes : Op

-- The hits that all consumers got, in order, and the tap at the end.
unfoldable pub run : List Op → HitTap → List Hit × HitTap
unfolding append take_hits
run [] t = ([], t)
run (appends batch ∷ ops) t = run ops (append batch t)
run (takes ∷ ops) t =
    let (got, t') = take_hits t in let (rest, last) = run ops t' in (got ++ rest, last)

-- All the hits that were appended.
abbrev pub offered : List Op → List Hit
offered [] = []
offered (appends batch ∷ ops) = batch ++ offered ops
offered (takes ∷ ops) = offered ops

take-Sublist : (n : ℕ) (xs : List Hit) → Sublist (take n xs) xs
take-Sublist zero xs = Sublist.trans (sublist-append_left [] xs) (Sublist.refl xs)
take-Sublist (suc n) [] = Sublist.refl []
take-Sublist (suc n) (x ∷ xs) = Sublist.cons-cons x (take-Sublist n xs)

append-Sublist : (batch : List Hit) (t : HitTap) → Sublist (append batch t).hits (t.hits ++ batch)
unfolding append
append-Sublist batch t = elim (Bool-cases (length batch == 0 || not t.enabled)) [
  | inl skipped ↦ rw skipped (sublist-append_left t.hits batch)
  | inr taken ↦ rw taken (Sublist.append (Sublist.refl t.hits) (take-Sublist _ batch))
]

-- How many hits of a batch still fit.
accepted : List Hit → HitTap → ℕ
accepted batch t = min (length batch) (t.capacity - length t.hits)

accepted_lem :
    (n h c : ℕ)
    → (if ltb n (if ltb h c then c - h else 0) then n else (if ltb h c then c - h else 0))
      ≡ min n (c - h)
accepted_lem n h c = ground arith

append_on :
    (x : Hit) (batch : List Hit) (t : HitTap)
    → t.enabled ≡ true
    → append (x ∷ batch) t ≡ record t {
      hits = t.hits ++ take (accepted (x ∷ batch) t) (x ∷ batch);
      dropped = u64 (t.dropped + (length (x ∷ batch) - accepted (x ∷ batch) t));
    }
unfolding append accepted
append_on x batch t on =
    rw (some_hits, accepted_lem (length (x ∷ batch)) (length t.hits) t.capacity) refl
  where
    some_hits : (length (x ∷ batch) == 0 || not t.enabled) ≡ false
    some_hits = ground arith

append-none : (t : HitTap) → append [] t ≡ t
unfolding append
append-none t = refl

-- One batch, of any size: the tap stays on and within its capacity, and no hit is unaccounted.
append-total :
    (batch : List Hit) (t : HitTap)
    → t.enabled ≡ true
    → length t.hits ≤ t.capacity
    → t.dropped + length batch < 2 ^ 64
    → ((append batch t).enabled ≡ true)
      × ((append batch t).capacity ≡ t.capacity)
      × (length (append batch t).hits ≤ t.capacity)
      × (length (append batch t).hits + (append batch t).dropped
          ≡ length t.hits + t.dropped + length batch)
unfolding accepted
append-total [] t on fits small = rw (append-none t) (on, refl, fits, omega arith)
append-total (x ∷ batch) t on fits small =
    rw
      (
        append_on x batch t on,
        length-append t.hits (take (accepted (x ∷ batch) t) (x ∷ batch)),
        length-take (accepted (x ∷ batch) t) (x ∷ batch),
      )
      (on, refl, omega arith, omega arith)

-- The hits that the consumers got, then those still held, are the appended ones in their order
-- with some left out; exactly those left out are counted as dropped; the tap never holds more
-- than its capacity. The tap is enabled and within its capacity at the start, and the counter
-- does not wrap.
pub run-Conserves :
    (ops : List Op) (t : HitTap)
    → t.enabled ≡ true
    → length t.hits ≤ t.capacity
    → t.dropped + length t.hits + length (offered ops) < 2 ^ 64
    → Sublist ((run ops t).0 ++ (run ops t).1.hits) (t.hits ++ offered ops)
      × (length (run ops t).0 + length (run ops t).1.hits + (run ops t).1.dropped
          ≡ length t.hits + length (offered ops) + t.dropped)
      × (length (run ops t).1.hits ≤ t.capacity)
unfolding run take_hits
run-Conserves [] t on fits small = (rw (append-nil t.hits) (Sublist.refl t.hits), omega arith, fits)
run-Conserves (appends batch ∷ ops) t on fits small =
    let (on', same, fits', total) = append-total batch t on fits (omega (arith, counted)) in
    let (sub, sum, held) =
      run-Conserves ops (append batch t) on' (omega (arith, same, fits'))
        (omega (arith, counted, total)) in
    (
      Sublist.trans sub (
          rw (sym (append_assoc t.hits batch (offered ops)))
            (Sublist.append (append-Sublist batch t) (Sublist.refl (offered ops)))),
      omega (arith, counted, total, sum),
      omega (arith, same, held),
    )
  where
    counted : length (batch ++ offered ops) ≡ length batch + length (offered ops)
    counted = length-append batch (offered ops)
run-Conserves (takes ∷ ops) t on fits small =
    let (sub, sum, held) =
      run-Conserves ops (record t { hits = [] }) on (omega arith) (omega arith) in
    (
      rw
          (append_assoc t.hits (run ops (record t { hits = [] })).0
            (run ops (record t { hits = [] })).1.hits)
          (Sublist.append (Sublist.refl t.hits) sub),
      omega (arith, sum, length-append t.hits (run ops (record t { hits = [] })).0),
      held,
    )
