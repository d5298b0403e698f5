-- ===== src/BoardRunner/Lifecycle/Responds.antt =====
-- What a board's start and stop do to its device.
use caen_daq.Base.{
  if◌then◌else◌, length, not, suc, zero, ◌==◌, Bool, Bool-cases, false, if-split, inl, inr, refl,
  true, ℕ, ◌≡◌, ◌⊎◌,
}
use caen_daq.BoardRunner.{Runner, dispatch}
use caen_daq.BoardRunner.Lifecycle.{
  Board, arm, drain, drain_reads, readout_bytes, start, start_reader, stop,
}
use caen_daq.ClockSync.Procedure.{reg_sync}
use caen_daq.Digitizer.{Digitizer, synchronised}

-- What is relied on: a device that accepts a start acquires, also after a trigger; a stop ends the
-- acquisition, which no readout, no register read, no alignment, no configuration and no refused
-- start begins; and closing a device that does not acquire releases it.
pub record Responds {D : Type 0} (ops : Digitizer D) (Acquiring Idle Closed : D → Type 0)
    : Type 0 where
  pub starts : (d : D) → (ops.start_board d).0 ≡ true → Acquiring (ops.start_board d).1
  pub arms : (d : D) → (ops.arm_board d).0 ≡ true → Acquiring (ops.arm_board d).1
  pub fires : (d : D) → Acquiring d → Acquiring (ops.send_sw_trigger d).1
  pub no_start : (d : D) → Idle d → (ops.start_board d).0 ≡ false → Idle (ops.start_board d).1
  pub no_arm : (d : D) → Idle d → (ops.arm_board d).0 ≡ false → Idle (ops.arm_board d).1
  pub opens : (d : D) → Idle d → Idle (ops.open_board d).1
  pub configures : (d : D) → Idle d → Idle (ops.configure d).1
  pub aligns : (d : D) → Idle d → Idle (ops.write_register reg_sync 1 d).1
  pub looks : (address : ℕ) (d : D) → Idle d → Idle (ops.read_register address d).1
  pub stops : (d : D) → Idle (ops.stop_board d).1
  pub empties : (d : D) → Idle d → Idle (ops.read_board d).1
  pub closes : (d : D) → Idle d → Closed (ops.close_board d)
  pub closed_idle : (d : D) → Closed d → Idle d

module _ {D Frame : Type 0} (ops : Digitizer D) (Acquiring Idle Closed : D → Type 0)
    (laws : Responds ops Acquiring Idle Closed) where
  -- The board runs and its device acquires.
  abbrev pub Runs : Board D Frame → Type 0
  Runs b = (b.running ≡ true) × Acquiring b.dev

  -- Moreover it is read out.
  abbrev pub IsUp : Board D Frame → Type 0
  IsUp b = (b.running ≡ true) × (b.reader_up ≡ true) × Acquiring b.dev

  -- The board does not run and its device does not acquire.
  abbrev pub IsQuiet : Board D Frame → Type 0
  IsQuiet b = (b.running ≡ false) × Idle b.dev

  -- The board was stopped: it is not read out either, and its device is closed.
  abbrev pub IsDown : Board D Frame → Type 0
  IsDown b = (b.running ≡ false) × (b.reader_up ≡ false) × Closed b.dev

  -- A board that a stop brings to rest
  abbrev pub CanStop : Board D Frame → Type 0
  CanStop b = (b.running ≡ true) ⊎ IsQuiet b

  drain_reads-idle :
      (n : ℕ) (in_time : ℕ → Bool) (d : D) (r : Runner Frame)
      → Idle d
      → Idle (drain_reads ops n in_time d r).0
  unfolding drain_reads
  drain_reads-idle zero in_time d r h = h
  drain_reads-idle (suc n) in_time d r h =
      let (readout, d') = ops.read_board d in
      let bytes = readout_bytes readout in
      let h' = laws.empties d h in
      if-split (λ (o : D × Runner Frame). Idle o.0) (not (in_time (suc n))) (λ _. h)
        (λ _.
          if-split (λ (o : D × Runner Frame). Idle o.0) (length bytes == 0) (λ _. h')
            (λ _. drain_reads-idle n in_time d' (dispatch bytes r) h'))

  stopped_dev : (in_time : ℕ → Bool) → Board D Frame → D
  stopped_dev in_time b = ops.close_board (drain ops in_time (ops.stop_board b.dev).1 b.runner).0

  stopped_dev-closed : (in_time : ℕ → Bool) (b : Board D Frame) → Closed (stopped_dev in_time b)
  unfolding stopped_dev drain
  stopped_dev-closed in_time b =
      laws.closes (drain_reads ops 1000 in_time (ops.stop_board b.dev).1 b.runner).0
        (drain_reads-idle 1000 in_time (ops.stop_board b.dev).1 b.runner (laws.stops b.dev))

  pub stop-IsDown :
      (in_time : ℕ → Bool) (b : Board D Frame) → b.running ≡ true → IsDown (stop ops in_time b)
  unfolding stop stopped_dev
  stop-IsDown in_time b on =
      if-split IsDown (not b.running) (λ off. cc (on, off))
        (λ _. (refl, refl, stopped_dev-closed in_time b))

  pub stop-IsQuiet :
      (in_time : ℕ → Bool) (b : Board D Frame) → CanStop b → IsQuiet (stop ops in_time b)
  unfolding stop stopped_dev
  stop-IsQuiet in_time b h =
      let closed = stopped_dev-closed in_time b in
      if-split IsQuiet (not b.running) (λ off. elim h [ inl on ↦ cc (on, off) | inr quiet ↦ quiet ])
        (λ _. (refl, laws.closed_idle (stopped_dev in_time b) closed))

  -- How the start of one board ends.
  abbrev pub OneStarted : Bool × Board D Frame → Type 0
  OneStarted r = ((r.0 ≡ true) × Runs r.1) ⊎ ((r.0 ≡ false) × IsQuiet r.1)

  start-ends : (b : Board D Frame) → IsQuiet b → OneStarted (start ops b)
  unfolding start
  start-ends b h =
      if-split OneStarted b.running (λ on. cc (on, h.0))
        (λ _. elim (Bool-cases (ops.start_board b.dev).0) [
          | inl e ↦ inl (e, (e, laws.starts b.dev e))
          | inr e ↦ inr (e, (e, laws.no_start b.dev h.1 e))
        ])

  arm-ends : (b : Board D Frame) → IsQuiet b → OneStarted (arm ops b)
  unfolding arm
  arm-ends b h =
      let (armed, d) = ops.arm_board b.dev in
      if-split OneStarted b.running (λ on. cc (on, h.0))
        (λ _.
          if-split OneStarted armed
            {x = (true, record b { dev = d; running = true; board_info = ops.info d })}
            {y = (false, record b { dev = d; running = false })}
            (λ e. inl (refl, (refl, laws.arms b.dev e)))
            (λ e. inr (refl, (refl, laws.no_arm b.dev h.1 e))))

  abbrev pub started_one : Board D Frame → Bool × Board D Frame
  started_one b = if synchronised ops b.dev then arm ops b else start ops b

  pub started_one-ends : (b : Board D Frame) → IsQuiet b → OneStarted (started_one b)
  started_one-ends b h =
      if-split OneStarted (synchronised ops b.dev) (λ _. arm-ends b h) (λ _. start-ends b h)

  pub start_reader-IsUp : (b : Board D Frame) → Runs b → IsUp (start_reader ops b)
  unfolding start_reader
  start_reader-IsUp b h = if-split IsUp b.reader_up (λ up. (h.0, up, h.1)) (λ _. (h.0, refl, h.1))
