-- ===== src/Graphite/Backoff.antt =====
-- How often an unreachable server is tried.
use caen_daq.Base.{
  Returns, Bool-cases, is_some, lt→ltb, not, ◌==◌, ◌||◌, ◌∙◌, Option, false, length, some, subst,
  sym, true, ◌<◌, ◌>>=◌, Bool, List, Option-cases, Result, [], ap, arith, drop, err, inl, inr, none,
  ok, refl, suc, zero, ℕ, ◌+◌, ◌∷◌, ◌≡◌, ◌≤◌, ◌⊎◌,
}
use caen_daq.Graphite.{
  backing_off, close_fd, is_positive, try_connect, connect_on, connect_socket, is_enabled,
  new_client, GraphiteClient, Sockets, close_socket, next_delay, note_failure, note_success,
  send_all, send_on, taken, send,
}
use caen_daq.Base.Int.{ℤ, pos, negsuc}
use caen_daq.Board.{Text}

-- No delay, or one between the first and the longest.
abbrev pub InRange : ℕ → Type 0
InRange d = (d ≡ 0) ⊎ ((1000 ≤ d) × (d ≤ 30000))

next_delay-range : (d : ℕ) → InRange d → (1000 ≤ next_delay d) × (next_delay d ≤ 30000)
next_delay-range d h = ground arith

drop-length : (n : ℕ) (xs : List ℕ) → length (drop n xs) ≤ length xs
drop-length zero xs = omega arith
drop-length (suc n) [] = omega arith
drop-length (suc n) (x ∷ xs) = omega (arith, drop-length n xs)

-- A send that goes well takes at least a byte.
drop-shorter :
    (answer : ℤ) (b : ℕ) (bytes : List ℕ)
    → is_positive answer ≡ true
    → length (drop (taken answer) (b ∷ bytes)) ≤ length bytes
drop-shorter (pos zero) b bytes e = cc e
drop-shorter (pos (suc n)) b bytes e = drop-length n bytes
drop-shorter (negsuc n) b bytes e = cc e

module _ {W : Type 0} (sys : Sockets W) where
  close_fd_lem :
      (o : Option ℕ) (c : GraphiteClient) (w : W)
      → c.fd ≡ o
      → ((close_fd sys o c w).0.retry_delay ≡ c.retry_delay) × ((close_fd sys o c w).0.fd ≡ none)
  unfolding close_fd
  close_fd_lem none c w e = (refl, e)
  close_fd_lem (some s) c w e = (refl, refl)

  -- What a failure leaves: no socket, and a delay from now on.
  note_failure_lem :
      (c : GraphiteClient) (w : W)
      → ((note_failure sys c w).0.fd ≡ none)
        × ((note_failure sys c w).0.retry_delay ≡ next_delay c.retry_delay)
        × ((note_failure sys c w).0.next_attempt
            ≡ sys.now (note_failure sys c w).1 + next_delay c.retry_delay)
  unfolding note_failure close_socket
  note_failure_lem c w =
      let l = close_fd_lem c.fd c w refl in
      let e = ap next_delay l.0 in (l.1, e, ap (λ d. sys.now (close_fd sys c.fd c w).1 + d) e)

  -- The call returned, with a delay in the range.
  abbrev pub DelayIn : Result (Bool × GraphiteClient × W) → Type 0
  DelayIn m = Returns (λ r. InRange r.1.retry_delay) m

  note_failure-range :
      (c : GraphiteClient) (w : W)
      → InRange c.retry_delay
      → InRange (note_failure sys c w).0.retry_delay
  note_failure-range c w h = inr (rw (note_failure_lem c w).1 (next_delay-range c.retry_delay h))

  send_all-range :
      (fuel s : ℕ) (bytes : List ℕ) (c : GraphiteClient) (w : W)
      → InRange c.retry_delay
      → length bytes ≤ fuel
      → DelayIn (send_all sys fuel s bytes c w)
  unfolding send_all note_success
  send_all-range fuel s [] c w h enough = inl refl
  send_all-range zero s (b ∷ bytes) c w h enough = absurd (omega (arith, enough))
  send_all-range (suc fuel) s (b ∷ bytes) c w h enough =
      elim (Bool-cases (is_positive (sys.send s (b ∷ bytes) w).0)) [
        | inl e ↦ rw e (
            send_all-range fuel s (drop (taken (sys.send s (b ∷ bytes) w).0) (b ∷ bytes)) c
              (sys.send s (b ∷ bytes) w).1 h
              (omega (arith, enough, drop-shorter (sys.send s (b ∷ bytes) w).0 b bytes e)))
        | inr e ↦ rw e (note_failure-range c (sys.send s (b ∷ bytes) w).1 h)
      ]

  send_on-range :
      (o : Option ℕ) (payload : List ℕ) (c : GraphiteClient) (w : W)
      → InRange c.retry_delay
      → DelayIn (send_on sys o payload c w)
  unfolding send_on
  send_on-range none payload c w h = h
  send_on-range (some s) payload c w h =
      send_all-range (length payload) s payload c w h (omega arith)

  connect_on-same :
      (s address : ℕ) (c : GraphiteClient) (w : W)
      → (connect_on sys s address c w).1.retry_delay ≡ c.retry_delay
  unfolding connect_on
  connect_on-same s address c w =
      let w1 = sys.set_non_blocking s true w in
      let w2 = try_connect sys s address c.connect_timeout_ms w1.1 in
      let w3 = sys.set_non_blocking s false w2.1 in
      elim (Bool-cases w1.0) [
        | inr e ↦ rw e refl
        | inl e ↦ elim (Bool-cases w2.0) [
          | inr e' ↦ rw (e, e') refl
          | inl e' ↦ elim (Bool-cases w3.0) [
            | inr f ↦ rw (e, e', f) refl
            | inl f ↦ rw (e, e', f) refl
          ]
        ]
      ]

  connect_socket-same :
      (c : GraphiteClient) (w : W) → (connect_socket sys c w).1.retry_delay ≡ c.retry_delay
  unfolding connect_socket
  connect_socket-same c w =
      let found = sys.resolve c.host c.port w in
      let made = λ (address : ℕ). sys.socket address found.1 in
      elim (Bool-cases (is_enabled c)) [
        | inr e ↦ rw e refl
        | inl e ↦ elim (Option-cases found.0) [
          | inl f ↦ rw (e, f) refl
          | inr (address, f) ↦ elim (Option-cases (made address).0) [
            | inl g ↦ rw (e, f, g) refl
            | inr (s, g) ↦ rw (e, f, g) (connect_on-same s address c (made address).1)
          ]
        ]
      ]

  send-range :
      (payload : List ℕ) (c : GraphiteClient) (w : W)
      → InRange c.retry_delay
      → DelayIn (send sys payload c w)
  unfolding send
  send-range payload c w h =
      let c' = (connect_socket sys c w).1 in
      let w' = (connect_socket sys c w).2 in
      let h' : InRange c'.retry_delay = subst InRange (sym (connect_socket-same c w)) h in
      elim (Bool-cases (not (is_enabled c) || length payload == 0)) [
        | inl e ↦ rw e h
        | inr e ↦ elim (Bool-cases (is_some c.fd)) [
          | inl f ↦ rw (e, f) (send_on-range c.fd payload c w h)
          | inr f ↦ elim (Bool-cases (backing_off sys c w)) [
            | inl g ↦ rw (e, f, g) h
            | inr g ↦ elim (Bool-cases (connect_socket sys c w).0) [
              | inl k ↦ rw (e, f, g, k) (send_on-range c'.fd payload c' w' h')
              | inr k ↦ rw (e, f, g, k) (note_failure-range c' w' h')
            ]
          ]
        ]
      ]

  DelayIn-bind :
      (m : Result (Bool × GraphiteClient × W))
      (f : Bool × GraphiteClient × W → Result (Bool × GraphiteClient × W))
      → DelayIn m
      → ((r : Bool × GraphiteClient × W) → InRange r.1.retry_delay → DelayIn (f r))
      → DelayIn (m >>= f)
  DelayIn-bind (ok r) f h k = k r h
  DelayIn-bind (err e) f h k = h

  -- Batches that are sent one after the other.
  unfoldable pub sends :
      List (List ℕ) → Bool × GraphiteClient × W → Result (Bool × GraphiteClient × W)
  sends [] r = ok r
  sends (p ∷ payloads) r = send sys p r.1 r.2 >>= λ r'. sends payloads r'

  sends-range :
      (payloads : List (List ℕ)) (r : Bool × GraphiteClient × W)
      → InRange r.1.retry_delay
      → DelayIn (sends payloads r)
  unfolding sends
  sends-range [] r h = h
  sends-range (p ∷ payloads) r h =
      DelayIn-bind (send sys p r.1 r.2) (λ r'. sends payloads r') (send-range p r.1 r.2 h)
        (λ r' h'. sends-range payloads r' h')

  -- Through any batches sent by a new client, whatever the system answers, every send returns, and
  -- the delay before the next attempt is then 0, or at least 1000 ms and at most 30000 ms.
  pub sends-bounded :
      (host : Text) (port connect_ms send_ms : ℤ) (payloads : List (List ℕ)) (w : W)
      → DelayIn (sends payloads (true, new_client host port connect_ms send_ms, w))
  unfolding new_client
  sends-bounded host port connect_ms send_ms payloads w =
      sends-range payloads (true, new_client host port connect_ms send_ms, w) (inl refl)

  close_fd-enabled :
      (o : Option ℕ) (c : GraphiteClient) (w : W) → is_enabled (close_fd sys o c w).0 ≡ is_enabled c
  unfolding close_fd
  close_fd-enabled none c w = refl
  close_fd-enabled (some s) c w = refl

  note_failure-enabled :
      (c : GraphiteClient) (w : W) → is_enabled (note_failure sys c w).0 ≡ is_enabled c
  unfolding note_failure close_socket
  note_failure-enabled c w = close_fd-enabled c.fd c w

  waiting :
      (c : GraphiteClient) (w : W)
      → c.fd ≡ none
      → 0 < c.retry_delay
      → sys.now w < c.next_attempt
      → (payload : List ℕ) → is_enabled c ≡ true
      → 0 < length payload
      → send sys payload c w ≡ ok (false, c, w)
  unfolding send backing_off
  waiting c w no_socket delayed soon payload on full =
      let e : (length payload == 0) ≡ false = ground arith in
      rw
        (
          on,
          e,
          ap is_some no_socket,
          lt→ltb 0 c.retry_delay delayed,
          lt→ltb (sys.now w) c.next_attempt soon,
        )
        refl

  -- After a failure, until the delay is over, a client that is given something to send neither
  -- calls the system nor changes, and reports that nothing was sent.
  pub note_failure-quiet :
      (payload : List ℕ) (c : GraphiteClient) (w later : W)
      → InRange c.retry_delay
      → is_enabled c ≡ true
      → 0 < length payload
      → sys.now later < sys.now (note_failure sys c w).1 + next_delay c.retry_delay
      → send sys payload (note_failure sys c w).0 later
        ≡ ok (false, (note_failure sys c w).0, later)
  note_failure-quiet payload c w later h on full soon =
      let l = note_failure_lem c w in
      waiting (note_failure sys c w).0 later l.0
        (rw l.1 (omega (arith, (next_delay-range c.retry_delay h).0))) (rw l.2 soon) payload
        (note_failure-enabled c w ∙ on) full
