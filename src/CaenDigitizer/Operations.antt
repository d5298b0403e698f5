-- ===== src/CaenDigitizer/Operations.antt =====
-- The rest of CaenDigitizer: acquisition, readout with the reconnection, registers, the end. The
-- link's mutex is free whenever it is asked for.
use caen_daq.CaenDigitizer.Config.{free_only, DumpEntry, apply_config, configure, release_buffer}
use caen_daq.Base.{Bool, List, Option, false, if◌then◌else◌, length, none, not, some, true, ℕ, ◌||◌}
use caen_daq.CaenDigitizer.{
  CaenDigitizer, Driver, activate, call, clear_error, connected, has_buffer, has_driver, is_fault,
  is_synchronised, refresh_board_info, reg_acquisition_control, start_mode,
}
use caen_daq.Digitizer.{Digitizer}
use caen_daq.Base.Int.{pos}
use caen_daq.Board.{Text}

module _ {V : Type 0} (drv : Driver V) where
  unfoldable pub start : CaenDigitizer V → Bool × CaenDigitizer V
  unfolding call
  start s =
      let s' = call drv.sw_start (call drv.clear_data (clear_error s)) in
      if not (has_driver s)
      then (false, s)
      else (if is_fault s'.errcode then (false, s') else (true, record s' { running = true }))

  unfoldable pub arm : CaenDigitizer V → Bool × CaenDigitizer V
  unfolding call
  arm s =
      let s' =
        call (drv.set_register_bits reg_acquisition_control 2 2 1)
          (call drv.clear_data (clear_error s)) in
      if not (has_driver s)
      then (false, s)
      else (if is_fault s'.errcode then (false, s') else (true, record s' { running = true }))

  unfoldable pub send_sw_trigger : CaenDigitizer V → Bool × CaenDigitizer V
  unfolding call
  send_sw_trigger s =
      let s' = call drv.send_sw_trigger (clear_error s) in
      if not (has_driver s) then (false, s) else (not (is_fault s'.errcode), s')

  unfoldable pub drop_link : CaenDigitizer V → CaenDigitizer V
  unfolding free_only call
  drop_link s = if has_driver s then call drv.deactivate (free_only drv s) else s

  -- The acquisition is taken up again, if it was running.
  unfoldable pub resume : CaenDigitizer V → Bool × CaenDigitizer V
  unfolding arm call
  resume s =
      let restarted = call drv.sw_start (call drv.clear_data (clear_error s)) in
      if not s.running
      then (true, s)
      else (if is_synchronised s
          then arm (record s { running = false })
          else (not (is_fault restarted.errcode), restarted))

  abbrev pub read_buffer : CaenDigitizer V → Option (List ℕ) × CaenDigitizer V
  read_buffer s = elim s.dgtz [
    | none ↦ (none, s)
    | some v ↦
        let (bytes, e, v') = drv.read_data s.readout_buffer (pos 0) v in
        let s' = record s { errcode = e; dgtz = some v'; buffer_size = length bytes } in
        (if is_fault e then none else some bytes, s')
  ]

  unfoldable pub write_register : ℕ → ℕ → CaenDigitizer V → Bool × CaenDigitizer V
  unfolding call
  write_register address value s =
      let s' = call (drv.write_register address value) (clear_error s) in
      if not (has_driver s) || not (connected drv s)
      then (false, s)
      else (if is_fault s'.errcode then (false, clear_error s') else (true, s'))

  unfoldable pub read_register : ℕ → CaenDigitizer V → Option ℕ × CaenDigitizer V
  read_register address s = elim s.dgtz [
    | none ↦ (none, s)
    | some v ↦
        let (value, e, v') = drv.read_register address (pos 0) v in
        let s' = record s { errcode = pos 0; dgtz = some v' } in
        if not (connected drv s)
        then (none, s)
        else (if is_fault e then (none, s') else (some value, s'))
  ]

  unfoldable pub stop : CaenDigitizer V → Bool × CaenDigitizer V
  unfolding call
  stop s =
      let s' = call drv.sw_stop (clear_error (record s { running = false })) in
      if not (has_driver s) then (false, s) else (not (is_fault s'.errcode), s')

  unfoldable pub close : CaenDigitizer V → CaenDigitizer V
  close s =
      let stopped = if s.running then (stop s).1 else s in
      if not (has_driver s)
      then s
      else record (call drv.deactivate (release_buffer drv stopped)) { dgtz = none }

module _ {V : Type 0} (drv : Driver V) (registers : Text → Option (List DumpEntry)) where
  unfoldable pub reconnect : CaenDigitizer V → Bool × CaenDigitizer V
  unfolding drop_link resume
  reconnect s =
      let (opened, s1) = activate drv (drop_link drv s) in
      let (configured, s2) = apply_config drv registers s1 in
      if not opened
      then (false, s1)
      else (if not configured then (false, s2) else resume drv (refresh_board_info drv s2))

  -- `read` up to the call of `ReadData`.
  unfoldable pub before_read : CaenDigitizer V → Bool × CaenDigitizer V
  before_read s =
      let again = reconnect s in
      if not (has_driver s) || not (has_buffer s)
      then (false, s)
      else (if connected drv s then (true, s) else again)

  unfoldable pub read : CaenDigitizer V → Option (List ℕ) × CaenDigitizer V
  unfolding before_read
  read s = let (ready, s') = before_read s in if ready then read_buffer drv s' else (none, s')

-- The board as the rest of the program uses it.
abbrev pub caen_digitizer :
    {V : Type 0} → Driver V → (Text → Option (List DumpEntry)) → Digitizer (CaenDigitizer V)
caen_digitizer drv registers = record {
  open_board = activate drv;
  configure = configure drv registers;
  start_mode = start_mode;
  start_board = start drv;
  arm_board = arm drv;
  send_sw_trigger = send_sw_trigger drv;
  read_board = read drv registers;
  write_register = write_register drv;
  read_register = read_register drv;
  stop_board = stop drv;
  close_board = close drv;
  info = λ s. s.info;
}
