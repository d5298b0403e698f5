-- ===== src/Graphite.antt =====
-- src/GraphiteClient.cpp: the client of the metrics server. The system's socket calls are a
-- parameter; times are in ms.
pub mod Backoff
pub mod Delivery
use caen_daq.Base.{
  Bool, List, Option, Result, [], drop, err, false, if◌then◌else◌, is_some, length, ltb, min, none,
  not, ok, out_of_fuel, some, suc, true, zero, ℕ, ◌&&◌, ◌*◌, ◌+◌, ◌==◌, ◌||◌, ◌∷◌,
}
use caen_daq.CaenDigitizer.{connected}
use caen_daq.Base.Int.{ℤ, pos, negsuc}
use caen_daq.Board.{Text}

-- `port` and the timeouts are `int`s; `fd` is the socket, if there is one.
pub record GraphiteClient : Type 0 where
  pub host : Text
  pub port : ℤ
  pub connect_timeout_ms : ℤ
  pub send_timeout_ms : ℤ
  pub fd : Option ℕ
  pub next_attempt : ℕ
  pub retry_delay : ℕ
  pub warned : Bool

-- The system: its state `W` holds the sockets and the clock. A connect answers at once (`some`
-- of whether it succeeded) or is in progress (`none`). `wait_writable` gives 1, 0 or -1;
-- `socket_error` whether the error could be asked for, and the error. `send` is given the bytes
-- that remain, and answers how many were taken, or what is not positive.
pub record Sockets (W : Type 0) : Type 0 where
  pub now : W → ℕ
  pub resolve : Text → ℤ → W → Option ℕ × W
  pub socket : ℕ → W → Option ℕ × W
  pub set_non_blocking : ℕ → Bool → W → Bool × W
  pub connect : ℕ → ℕ → W → Option Bool × W
  pub wait_writable : ℕ → ℤ → W → ℤ × W
  pub socket_error : ℕ → W → (Bool × ℕ) × W
  pub set_options : ℕ → ℤ → W → W
  pub send : ℕ → List ℕ → W → ℤ × W
  pub close : ℕ → W → W

abbrev pub retry_initial : ℕ
retry_initial = 1000

abbrev pub retry_max : ℕ
retry_max = 30000

abbrev pub default_timeout_ms : ℤ
default_timeout_ms = pos 200

abbrev pub is_positive : ℤ → Bool
is_positive (pos n) = ltb 0 n
is_positive (negsuc n) = false

-- The count that a send answers.
abbrev pub taken : ℤ → ℕ
taken (pos n) = n
taken (negsuc n) = 0

unfoldable pub new_client : Text → ℤ → ℤ → ℤ → GraphiteClient
new_client host port connect_ms send_ms = record {
  host = host;
  port = port;
  connect_timeout_ms = if is_positive connect_ms then connect_ms else default_timeout_ms;
  send_timeout_ms = if is_positive send_ms then send_ms else default_timeout_ms;
  fd = none;
  next_attempt = 0;
  retry_delay = 0;
  warned = false;
}

abbrev pub is_enabled : GraphiteClient → Bool
is_enabled c = not (length c.host == 0) && is_positive c.port

-- `noteSuccess`
unfoldable pub note_success : GraphiteClient → GraphiteClient
note_success c = record c { warned = false; retry_delay = 0; next_attempt = 0 }

abbrev pub next_delay : ℕ → ℕ
next_delay d = if d == 0 then retry_initial else min (d * 2) retry_max

module _ {W : Type 0} (sys : Sockets W) where
  unfoldable pub close_fd : Option ℕ → GraphiteClient → W → GraphiteClient × W
  close_fd none c w = (c, w)
  close_fd (some s) c w = (record c { fd = none }, sys.close s w)

  unfoldable pub close_socket : GraphiteClient → W → GraphiteClient × W
  unfolding close_fd
  close_socket c w = close_fd c.fd c w

  unfoldable pub backing_off : GraphiteClient → W → Bool
  backing_off c w = ltb 0 c.retry_delay && ltb (sys.now w) c.next_attempt

  unfoldable pub note_failure : GraphiteClient → W → GraphiteClient × W
  note_failure c w =
      let (c', w') = close_socket c w in
      let delay = next_delay c'.retry_delay in
      (record c' { retry_delay = delay; next_attempt = sys.now w' + delay; warned = true }, w')

  -- Writable also on failure: the socket is asked how it went.
  unfoldable pub settle_connect : ℕ → ℤ → W → Bool × W
  settle_connect s timeout_ms w =
      let (ready, w1) = sys.wait_writable s timeout_ms w in
      let ((asked, error), w2) = sys.socket_error s w1 in
      elim ready [
        | pos n ↦ if n == 1 then (asked && error == 0, w2) else (false, w1)
        | negsuc n ↦ (false, w1)
      ]

  unfoldable pub try_connect : ℕ → ℕ → ℤ → W → Bool × W
  try_connect s address timeout_ms w =
      let (answer, w') = sys.connect s address w in
      elim answer [ none ↦ settle_connect s timeout_ms w' | some done ↦ (done, w') ]

  -- From a new socket on.
  unfoldable pub connect_on : ℕ → ℕ → GraphiteClient → W → Bool × GraphiteClient × W
  connect_on s address c w =
      let (set1, w1) = sys.set_non_blocking s true w in
      let (connected, w2) = try_connect s address c.connect_timeout_ms w1 in
      let (set2, w3) = sys.set_non_blocking s false w2 in
      if not set1
      then (false, c, sys.close s w1)
      else (if not connected
          then (false, c, sys.close s w2)
          else (if not set2
              then (false, c, sys.close s w3)
              else (true, record c { fd = some s }, sys.set_options s c.send_timeout_ms w3)))

  unfoldable pub connect_socket : GraphiteClient → W → Bool × GraphiteClient × W
  connect_socket c w =
      let (found, w1) = sys.resolve c.host c.port w in
      if not (is_enabled c) then (false, c, w) else elim found [
        | none ↦ (false, c, w1)
        | some address ↦
            let (made, w2) = sys.socket address w1 in
            elim made [ none ↦ (false, c, w2) | some s ↦ connect_on s address c w2 ]
      ]

  abbrev pub give_up : GraphiteClient × W → Result (Bool × GraphiteClient × W)
  give_up r = ok (false, r.0, r.1)

  -- The loop of `send`, on fuel. A failure is noted.
  unfoldable pub send_all : ℕ → ℕ → List ℕ → GraphiteClient → W → Result (Bool × GraphiteClient × W)
  send_all fuel s [] c w = ok (true, note_success c, w)
  send_all zero s (b ∷ bytes) c w = err out_of_fuel
  send_all (suc fuel) s (b ∷ bytes) c w =
      let (n, w') = sys.send s (b ∷ bytes) w in
      let rest = send_all fuel s (drop (taken n) (b ∷ bytes)) c w' in
      if is_positive n then rest else give_up (note_failure c w')

  unfoldable pub send_on :
      Option ℕ → List ℕ → GraphiteClient → W → Result (Bool × GraphiteClient × W)
  send_on none payload c w = ok (false, c, w)
  send_on (some s) payload c w = send_all (length payload) s payload c w

  unfoldable pub send : List ℕ → GraphiteClient → W → Result (Bool × GraphiteClient × W)
  send payload c w =
      let (connected, c', w') = connect_socket c w in
      if not (is_enabled c) || length payload == 0
      then ok (true, c, w)
      else (if is_some c.fd
          then send_on c.fd payload c w
          else (if backing_off c w
              then ok (false, c, w)
              else (if connected
                  then send_on c'.fd payload c' w'
                  else give_up (note_failure c' w'))))
