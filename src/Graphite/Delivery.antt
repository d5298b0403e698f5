-- ===== src/Graphite/Delivery.antt =====
-- What a batch has become when `send` returns.
use caen_daq.Base.{
  Returns-weaken, is_some, lt→ltb, subst, ◌==◌, Option, none, some, Bool, Returns, inl, inr, refl,
  sym, true, ◌∙◌, List, [], ap, arith, drop, false, length, suc, take, zero, ℕ, ◌++◌, ◌+◌, ◌<◌, ◌∷◌,
  ◌≡◌, ◌≤◌, ◌⊎◌,
}
use caen_daq.Graphite.{
  is_enabled, send_on, close_fd, GraphiteClient, close_socket, note_failure, send_all, Sockets,
  is_positive, send,
}
use mathlib.Core.List.{append-nil, append_assoc}
use caen_daq.Base.Int.{pos}

-- What is relied on: `send` takes a part of what it is given, at the front, or nothing; `sent` is
-- what was taken so far. No other call sends anything.
pub record Carries {W : Type 0} (sys : Sockets W) (sent : W → List ℕ) : Type 0 where
  pub sends :
      (s : ℕ) (bytes : List ℕ) (w : W)
      → ((is_positive (sys.send s bytes w).0 ≡ false) × (sent (sys.send s bytes w).1 ≡ sent w))
        ⊎ ((n : ℕ) × ((sys.send s bytes w).0 ≡ pos n)
            × (0 < n)
            × (n ≤ length bytes)
            × (sent (sys.send s bytes w).1 ≡ sent w ++ take n bytes))
  pub closes : (s : ℕ) (w : W) → sent (sys.close s w) ≡ sent w

take-none : (k : ℕ) → take {A = ℕ} k [] ≡ []
take-none zero = refl
take-none (suc k) = refl

take-join : (n k : ℕ) (xs : List ℕ) → take n xs ++ take k (drop n xs) ≡ take (n + k) xs
take-join zero k xs = (let e : k ≡ 0 + k = omega arith in ap (λ m. take m xs) e)
take-join (suc n) k [] = take-none k ∙ sym (take-none (suc n + k))
take-join (suc n) k (x ∷ xs) =
    let e : suc (n + k) ≡ suc n + k = omega arith in
    ap (λ t. x ∷ t) (take-join n k xs) ∙ ap (λ m. take m (x ∷ xs)) e

length-drop : (n : ℕ) (xs : List ℕ) → n ≤ length xs → n + length (drop n xs) ≡ length xs
length-drop zero xs h = omega arith
length-drop (suc n) [] h = absurd (omega arith)
length-drop (suc n) (x ∷ xs) h = omega (arith, length-drop n xs (omega arith))

module _ {W : Type 0} (sys : Sockets W) (sent : W → List ℕ) (laws : Carries sys sent) where
  -- The call returned; a front part of the batch was taken, and all of it if the answer is true.
  pub record SentPart (bytes : List ℕ) (w : W) (r : Bool × GraphiteClient × W) : Type 0 where
    pub count : ℕ
    pub in_batch : count ≤ length bytes
    pub carried : sent r.2 ≡ sent w ++ take count bytes
    pub whole : r.0 ≡ true → count ≡ length bytes

  close-sent : (o : Option ℕ) (c : GraphiteClient) (w : W) → sent (close_fd sys o c w).1 ≡ sent w
  unfolding close_fd
  close-sent none c w = refl
  close-sent (some s) c w = laws.closes s w

  failure-sent : (c : GraphiteClient) (w : W) → sent (note_failure sys c w).1 ≡ sent w
  unfolding note_failure close_socket
  failure-sent c w = close-sent c.fd c w

  send_all-SentPart :
      (fuel s : ℕ) (bytes : List ℕ) (c : GraphiteClient) (w : W)
      → length bytes ≤ fuel
      → Returns (SentPart bytes w) (send_all sys fuel s bytes c w)
  unfolding send_all
  send_all-SentPart fuel s [] c w h = record {
    count = 0;
    in_batch = omega arith;
    carried = sym (append-nil (sent w));
    whole = λ _. refl;
  }
  send_all-SentPart zero s (b ∷ bytes) c w h = absurd (omega arith)
  send_all-SentPart (suc fuel) s (b ∷ bytes) c w h = elim (laws.sends s (b ∷ bytes) w) [
    | inl (stuck, e) ↦ rw stuck (record {
      count = 0;
      in_batch = omega arith;
      carried = failure-sent c (sys.send s (b ∷ bytes) w).1 ∙ e ∙ sym (append-nil (sent w));
      whole = λ h. cc h;
    })
    | inr (n, e, some_taken, fits, carried) ↦
        let xs = b ∷ bytes in
        let w' = (sys.send s xs w).1 in
        let left = length-drop n xs fits in
        let rest = send_all-SentPart fuel s (drop n xs) c w' (omega (arith, left)) in
        rw (e, lt→ltb 0 n some_taken)
          (Returns-weaken (SentPart (drop n xs) w') (SentPart xs w)
            (send_all sys fuel s (drop n xs) c w') rest
            (λ r p. record {
              count = n + p.count;
              in_batch = omega (arith, p.in_batch, left);
              carried =
                  p.carried
                  ∙ ap (λ (t : List ℕ). t ++ take p.count (drop n xs)) carried
                  ∙ append_assoc (sent w) (take n xs) (take p.count (drop n xs))
                  ∙ ap (λ t. sent w ++ t) (take-join n p.count xs);
              whole = λ h. omega (arith, p.whole h, left);
            }))
  ]

  -- On an open socket `send` returns, whatever the system answers; the part of the batch that was
  -- handed over is a front part of it, behind what was sent before, and the whole batch if `send`
  -- returns true. The client is enabled, and the system's `send` does as documented.
  pub send-SentPart :
      (s : ℕ) (payload : List ℕ) (c : GraphiteClient) (w : W)
      → c.fd ≡ some s
      → is_enabled c ≡ true
      → 0 < length payload
      → Returns (SentPart payload w) (send sys payload c w)
  unfolding send send_on
  send-SentPart s payload c w open_on on full =
      let e : (length payload == 0) ≡ false = ground arith in
      let sent_on = λ (o : Option ℕ). Returns (SentPart payload w) (send_on sys o payload c w) in
      rw (on, e, ap is_some open_on)
        (subst sent_on (sym open_on)
          (send_all-SentPart (length payload) s payload c w (omega arith)))
