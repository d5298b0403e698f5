-- ===== src/CaenDigitizer/Links/Sharing.antt =====
-- Which boards share a mutex.
use caen_daq.Base.{
  ap, Bool-cases, List, Option-cases, [], arith, get_elem?, inl, inr, none, refl, some, subst, suc,
  sym, true, zero, ℕ, ◌+◌, ◌<◌, ◌↔◌, ◌∙◌, ◌∷◌, ◌≡◌, ◌⊎◌,
}
use caen_daq.CaenDigitizer.Links.{Links, find_link, link_mutex, link_mutexes, no_links, same_link}

same_link_refl : (k : ℕ × ℕ) → same_link k k ≡ true
same_link_refl k = ground arith

same_link-eq : (a b : ℕ × ℕ) → same_link a b ≡ true → a ≡ b
same_link-eq (a, b) (c, d) h =
    let e : a ≡ c = ground arith in let e' : b ≡ d = ground arith in rw (e, e') refl

-- A mutex has one key, and a number that was given.
record Inj (s : Links) : Type 0 where
  below : (k : ℕ × ℕ) (m : ℕ) → find_link k s.registry ≡ some m → m < s.made
  one :
      (k k' : ℕ × ℕ) (m : ℕ)
      → find_link k s.registry ≡ some m
      → find_link k' s.registry ≡ some m
      → k ≡ k'

some_inj : {A : Type 0} (a b : A) → some a ≡ some b → a ≡ b
some_inj a b e = cc e

abbrev add_link : ℕ × ℕ → Links → Links
add_link k s = record { registry = (k, s.made) ∷ s.registry; made = s.made + 1 }

find-add :
    (k k' : ℕ × ℕ) (s : Links)
    → ((k ≡ k') × (find_link k' (add_link k s).registry ≡ some s.made))
      ⊎ (find_link k' (add_link k s).registry ≡ find_link k' s.registry)
unfolding find_link
find-add k k' s = elim (Bool-cases (same_link k k')) [
  | inl e ↦ inl (same_link-eq k k' e, rw e refl)
  | inr e ↦ inr (rw e refl)
]

add_link-Inj : (k : ℕ × ℕ) (s : Links) → Inj s → Inj (add_link k s)
add_link-Inj k s i = record {
  below = λ k' m h. elim (find-add k k' s) [
    | inl (_, e) ↦ (let e' : s.made ≡ m = some_inj s.made m (sym e ∙ h) in omega (arith, e'))
    | inr e ↦ (let l = i.below k' m (sym e ∙ h) in omega (arith, l))
  ];
  one = λ a b m h h'. elim (find-add k a s) [
    | inl (ka, e) ↦ elim (find-add k b s) [
      | inl (kb, e') ↦ sym ka ∙ kb
      | inr e' ↦
          (let same : s.made ≡ m = some_inj s.made m (sym e ∙ h) in
            let l = i.below b m (sym e' ∙ h') in absurd (omega (arith, same, l)))
    ]
    | inr e ↦ elim (find-add k b s) [
      | inl (kb, e') ↦
          (let same : s.made ≡ m = some_inj s.made m (sym e' ∙ h') in
            let l = i.below a m (sym e ∙ h) in absurd (omega (arith, same, l)))
      | inr e' ↦ i.one a b m (sym e ∙ h) (sym e' ∙ h')
    ]
  ];
}

no_links-Inj : Inj no_links
unfolding find_link
no_links-Inj = record { below = λ k m h. cc h; one = λ k k' m h h'. cc h }

-- What one call gives, and what it leaves.
link_mutex-cases :
    (k : ℕ × ℕ) (s : Links)
    → ((m : ℕ) × (find_link k s.registry ≡ some m) × (link_mutex k.0 k.1 s ≡ (m, s)))
      ⊎ ((find_link k s.registry ≡ none) × (link_mutex k.0 k.1 s ≡ (s.made, add_link k s)))
unfolding link_mutex
link_mutex-cases k s = elim (Option-cases (find_link k s.registry)) [
  | inl e ↦ inr (e, rw (link_mutex, e) refl)
  | inr (m, e) ↦ inl (m, e, rw (link_mutex, e) refl)
]

link_mutex-Inj : (k : ℕ × ℕ) (s : Links) → Inj s → Inj (link_mutex k.0 k.1 s).1
link_mutex-Inj k s i = elim (link_mutex-cases k s) [
  | inl (m, e, e') ↦ rw e' i
  | inr (e, e') ↦ rw e' (add_link-Inj k s i)
]

link_mutex-found :
    (k : ℕ × ℕ) (s : Links)
    → find_link k (link_mutex k.0 k.1 s).1.registry ≡ some (link_mutex k.0 k.1 s).0
unfolding find_link
link_mutex-found k s = elim (link_mutex-cases k s) [
  | inl (m, e, e') ↦ rw e' e
  | inr (e, e') ↦ rw (e', same_link_refl k) refl
]

link_mutex-stable :
    (k a : ℕ × ℕ) (m : ℕ) (s : Links)
    → find_link a s.registry ≡ some m
    → find_link a (link_mutex k.0 k.1 s).1.registry ≡ some m
link_mutex-stable k a m s h = elim (link_mutex-cases k s) [
  | inl (n, e, e') ↦ rw e' h
  | inr (e, e') ↦ rw e' (elim (find-add k a s) [ inl (ka, _) ↦ cc (e, h, ka) | inr l ↦ l ∙ h ])
]

link_mutexes-stable :
    (ks : List (ℕ × ℕ)) (a : ℕ × ℕ) (m : ℕ) (s : Links)
    → find_link a s.registry ≡ some m
    → find_link a (link_mutexes ks s).1.registry ≡ some m
unfolding link_mutexes
link_mutexes-stable [] a m s h = h
link_mutexes-stable (k ∷ ks) a m s h =
    link_mutexes-stable ks a m (link_mutex k.0 k.1 s).1 (link_mutex-stable k a m s h)

link_mutexes-Inj : (ks : List (ℕ × ℕ)) (s : Links) → Inj s → Inj (link_mutexes ks s).1
unfolding link_mutexes
link_mutexes-Inj [] s i = i
link_mutexes-Inj (k ∷ ks) s i = link_mutexes-Inj ks (link_mutex k.0 k.1 s).1 (link_mutex-Inj k s i)

link_mutexes-found :
    (ks : List (ℕ × ℕ)) (i : ℕ) (k : ℕ × ℕ) (s : Links)
    → get_elem? ks i ≡ some k
    → (m : ℕ) × (get_elem? (link_mutexes ks s).0 i ≡ some m)
      × (find_link k (link_mutexes ks s).1.registry ≡ some m)
unfolding link_mutexes
link_mutexes-found [] i k s h = cc h
link_mutexes-found (a ∷ ks) zero k s h =
    let m = (link_mutex a.0 a.1 s).0 in
    let e : a ≡ k = some_inj a k h in
    (
      m,
      refl,
      link_mutexes-stable ks k m (link_mutex a.0 a.1 s).1 (
          subst (λ x. find_link x (link_mutex a.0 a.1 s).1.registry ≡ some m) e
            (link_mutex-found a s)),
    )
link_mutexes-found (a ∷ ks) (suc i) k s h = link_mutexes-found ks i k (link_mutex a.0 a.1 s).1 h

-- Of any two boards that are made in a program's run, each is given a mutex, and they are given
-- the same one just if they have the same connection type and the same link number.
pub link_mutexes-shared :
    (ks : List (ℕ × ℕ)) (i j : ℕ) (k k' : ℕ × ℕ)
    → get_elem? ks i ≡ some k
    → get_elem? ks j ≡ some k'
    → (m m' : ℕ) × (get_elem? (link_mutexes ks no_links).0 i ≡ some m)
      × (get_elem? (link_mutexes ks no_links).0 j ≡ some m')
      × ((m ≡ m') ↔ (k ≡ k'))
link_mutexes-shared ks i j k k' h h' =
    let (m, given, found) = link_mutexes-found ks i k no_links h in
    let (m', given', found') = link_mutexes-found ks j k' no_links h' in
    let inj = link_mutexes-Inj ks no_links no_links-Inj in
    (
      m,
      m',
      given,
      given',
      (
        λ e. inj.one k k' m found (found' ∙ ap some (sym e)),
        λ e. some_inj m m' (cc (e, found, found')),
      ),
    )
