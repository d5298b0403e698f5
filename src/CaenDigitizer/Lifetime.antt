-- ===== src/CaenDigitizer/Lifetime.antt =====
-- A board from its construction to its end.
use caen_daq.CaenDigitizer.Driven.{
  no_value, arm-driver, start-driver, apply_config-driver, reconnect-driver, release_buffer-driver,
}
use caen_daq.CaenDigitizer.{
  refresh_board_info, connected, has_buffer, call, clear_error, new_digitizer,
  reg_acquisition_control, CaenDigitizer, Driver, activate, has_driver,
}
use caen_daq.CaenDigitizer.Operations.{
  drop_link, reconnect, resume, before_read, read_buffer, arm, read_register, send_sw_trigger,
  write_register, read, start, stop, close,
}
use caen_daq.CaenDigitizer.Ownership.{
  Kept-trans, activate-driver, refresh_board_info-Kept, call-Kept, Kept,
}
use caen_daq.Base.{
  arith, Bool, Option-cases, ap, is_some, sym, Bool-cases, List, Option, [], false, if◌then◌else◌,
  inl, inr, none, refl, true, ℕ, ◌∙◌, ◌∷◌, ◌≡◌,
}
use caen_daq.CaenDigitizer.Config.{apply_config, DumpEntry, configure, release_buffer}
use caen_daq.Digitizer.{BoardParams}
use caen_daq.Board.{Text}

-- The calls that the rest of the program makes.
pub data Op : Type 0 where
  opens configures starts arms triggers reads stops closes : Op
  writes : ℕ → ℕ → Op
  peeks : ℕ → Op

module _ {V : Type 0} (drv : Driver V) (registers : Text → Option (List DumpEntry)) where
  unfoldable pub run_op : Op → CaenDigitizer V → CaenDigitizer V
  run_op opens s = (activate drv s).1
  run_op configures s = (configure drv registers s).1
  run_op starts s = (start drv s).1
  run_op arms s = (arm drv s).1
  run_op triggers s = (send_sw_trigger drv s).1
  run_op reads s = (read drv registers s).1
  run_op stops s = (stop drv s).1
  run_op closes s = close drv s
  run_op (writes a v) s = (write_register drv a v s).1
  run_op (peeks a) s = (read_register drv a s).1

  unfoldable pub run_ops : List Op → CaenDigitizer V → CaenDigitizer V
  unfolding run_op
  run_ops [] s = s
  run_ops (o ∷ os) s = run_ops os (run_op o s)

-- No buffer without a driver, which alone can take it back.
abbrev pub Owned : {V : Type 0} → CaenDigitizer V → Type 0
Owned s = has_driver s ≡ false → s.readout_buffer ≡ none

module _ {V : Type 0} where
  driven : (s : CaenDigitizer V) → has_driver s ≡ true → Owned s
  driven s h gone = cc (h, gone)

  same : (s s' : CaenDigitizer V) → Kept s s' → Owned s → Owned s'
  same s s' k o h = k.buffer ∙ o (sym k.driver ∙ h)

module _ {V : Type 0} (drv : Driver V) where
  start-Owned : (s : CaenDigitizer V) → Owned s → Owned (start drv s).1
  unfolding start
  start-Owned s o = elim (Bool-cases (has_driver s)) [
    | inl e ↦ driven (start drv s).1 (start-driver drv s ∙ e)
    | inr e ↦ rw e o
  ]

  arm-Owned : (s : CaenDigitizer V) → Owned s → Owned (arm drv s).1
  unfolding arm
  arm-Owned s o = elim (Bool-cases (has_driver s)) [
    | inl e ↦ driven (arm drv s).1 (arm-driver drv s ∙ e)
    | inr e ↦ rw e o
  ]

  trigger-driver : (s : CaenDigitizer V) → has_driver (send_sw_trigger drv s).1 ≡ has_driver s
  unfolding send_sw_trigger
  trigger-driver s =
      let k = call-Kept drv.send_sw_trigger (clear_error s) in ground (arith, k.driver)

  trigger-Owned : (s : CaenDigitizer V) → Owned s → Owned (send_sw_trigger drv s).1
  unfolding send_sw_trigger
  trigger-Owned s o = elim (Bool-cases (has_driver s)) [
    | inl e ↦ driven (send_sw_trigger drv s).1 (trigger-driver s ∙ e)
    | inr e ↦ rw e o
  ]

  write-driver :
      (a v : ℕ) (s : CaenDigitizer V) → has_driver (write_register drv a v s).1 ≡ has_driver s
  unfolding write_register
  write-driver a v s =
      let k = call-Kept (drv.write_register a v) (clear_error s) in ground (arith, k.driver)

  write-Owned : (a v : ℕ) (s : CaenDigitizer V) → Owned s → Owned (write_register drv a v s).1
  unfolding write_register
  write-Owned a v s o = elim (Bool-cases (has_driver s)) [
    | inl e ↦ driven (write_register drv a v s).1 (write-driver a v s ∙ e)
    | inr e ↦ rw e o
  ]

  stop-driver : (s : CaenDigitizer V) → has_driver (stop drv s).1 ≡ has_driver s
  unfolding stop
  stop-driver s =
      let k = call-Kept drv.sw_stop (clear_error (record s { running = false })) in
      ground (arith, k.driver)

  stop-Owned : (s : CaenDigitizer V) → Owned s → Owned (stop drv s).1
  unfolding stop
  stop-Owned s o = elim (Bool-cases (has_driver s)) [
    | inl e ↦ driven (stop drv s).1 (stop-driver s ∙ e)
    | inr e ↦ rw e o
  ]

  read_register-driver :
      (a : ℕ) (s : CaenDigitizer V) → has_driver (read_register drv a s).1 ≡ has_driver s
  unfolding read_register
  read_register-driver a s = elim (Option-cases s.dgtz) [
    | inl e ↦ rw e refl
    | inr (v, e) ↦ rw e (ground arith)
  ]

  read_register-Owned : (a : ℕ) (s : CaenDigitizer V) → Owned s → Owned (read_register drv a s).1
  unfolding read_register
  read_register-Owned a s o = elim (Bool-cases (has_driver s)) [
    | inl e ↦ driven (read_register drv a s).1 (read_register-driver a s ∙ e)
    | inr e ↦ rw (no_value s.dgtz e) (λ _. o e)
  ]

  close-released :
      (s : CaenDigitizer V)
      → Owned s
      → (has_driver (close drv s) ≡ false) × ((close drv s).readout_buffer ≡ none)
  unfolding close
  close-released s o =
      let stopped = if s.running then (stop drv s).1 else s in
      let r = release_buffer-driver drv stopped in
      let k = call-Kept drv.deactivate (release_buffer drv stopped) in
      elim (Bool-cases (has_driver s)) [
        | inl e ↦ rw e (refl, k.buffer ∙ r.1)
        | inr e ↦ rw e (e, o e)
      ]

  read_buffer-Owned : (s : CaenDigitizer V) → Owned s → Owned (read_buffer drv s).1
  read_buffer-Owned s o = elim (Option-cases s.dgtz) [
    | inl e ↦ rw e (λ _. o (ap is_some e))
    | inr (v, e) ↦ rw e (λ h. cc h)
  ]

module _ {V : Type 0} (drv : Driver V) (registers : Text → Option (List DumpEntry)) where
  apply_config-idle :
      (s : CaenDigitizer V) → has_driver s ≡ false → apply_config drv registers s ≡ (false, s)
  unfolding apply_config
  apply_config-idle s h = rw h refl

  configure-driver : (s : CaenDigitizer V) → has_driver (configure drv registers s).1 ≡ has_driver s
  unfolding configure
  configure-driver s =
      let c = apply_config-driver drv registers s in
      let k = refresh_board_info-Kept drv (apply_config drv registers s).1 in
      elim (Bool-cases (apply_config drv registers s).0) [
        | inl e ↦ rw e (k.driver ∙ c.0)
        | inr e ↦ rw e c.0
      ]

  configure-Owned : (s : CaenDigitizer V) → Owned s → Owned (configure drv registers s).1
  unfolding configure
  configure-Owned s o = elim (Bool-cases (has_driver s)) [
    | inl e ↦ driven (configure drv registers s).1 (configure-driver s ∙ e)
    | inr e ↦ rw (apply_config-idle s e) o
  ]

  before_read-Owned : (s : CaenDigitizer V) → Owned s → Owned (before_read drv registers s).1
  unfolding before_read
  before_read-Owned s o = elim (Bool-cases (has_driver s)) [
    | inr e ↦ rw e o
    | inl e ↦ elim (Bool-cases (has_buffer s)) [
      | inr e' ↦ rw (e, e') o
      | inl e' ↦ elim (Bool-cases (connected drv s)) [
        | inl up ↦ rw (e, e', up) o
        | inr down ↦
            rw (e, e', down)
              (driven (reconnect drv registers s).1 (reconnect-driver drv registers s e))
      ]
    ]
  ]

  read-Owned : (s : CaenDigitizer V) → Owned s → Owned (read drv registers s).1
  unfolding read
  read-Owned s o =
      let p = before_read-Owned s o in
      elim (Bool-cases (before_read drv registers s).0) [
        | inl e ↦ rw e (read_buffer-Owned drv _ p)
        | inr e ↦ rw e p
      ]

  run_op-Owned : (op : Op) (s : CaenDigitizer V) → Owned s → Owned (run_op drv registers op s)
  unfolding run_op
  run_op-Owned opens s o = driven (activate drv s).1 (activate-driver drv s).0
  run_op-Owned configures s o = configure-Owned s o
  run_op-Owned starts s o = start-Owned drv s o
  run_op-Owned arms s o = arm-Owned drv s o
  run_op-Owned triggers s o = trigger-Owned drv s o
  run_op-Owned reads s o = read-Owned s o
  run_op-Owned stops s o = stop-Owned drv s o
  run_op-Owned closes s o = λ _. (close-released drv s o).1
  run_op-Owned (writes a v) s o = write-Owned drv a v s o
  run_op-Owned (peeks a) s o = read_register-Owned drv a s o

  run_ops-Owned :
      (ops : List Op) (s : CaenDigitizer V) → Owned s → Owned (run_ops drv registers ops s)
  unfolding run_ops
  run_ops-Owned [] s o = o
  run_ops-Owned (op ∷ ops) s o = run_ops-Owned ops (run_op drv registers op s) (run_op-Owned op s o)

  -- Whatever calls a board has seen since its construction, and however they went, without a
  -- driver it holds no readout buffer; and closing it leaves it without a driver and without a
  -- buffer.
  pub run_ops-closed :
      (params : BoardParams) (ops : List Op)
      → Owned (run_ops drv registers ops (new_digitizer params))
        × (has_driver (close drv (run_ops drv registers ops (new_digitizer params))) ≡ false)
        × ((close drv (run_ops drv registers ops (new_digitizer params))).readout_buffer ≡ none)
  unfolding new_digitizer
  run_ops-closed params ops =
      let o = run_ops-Owned ops (new_digitizer params) (λ _. refl) in
      (o, (close-released drv _ o).0, (close-released drv _ o).1)

  abbrev Armed : Bool × CaenDigitizer V → Type 0
  Armed r = r.0 ≡ true → has_buffer r.1 ≡ true

  resume-buffer : (s : CaenDigitizer V) → (resume drv s).1.readout_buffer ≡ s.readout_buffer
  unfolding resume arm
  resume-buffer s =
      let t = record s { running = false } in
      let k =
        Kept-trans (call-Kept drv.clear_data (clear_error s))
          (call-Kept drv.sw_start (call drv.clear_data (clear_error s))) in
      let l = Kept-trans (call-Kept drv.clear_data (clear_error t)) (
        call-Kept (drv.set_register_bits reg_acquisition_control 2 2 1)
          (call drv.clear_data (clear_error t))) in
      ground (arith, k.buffer, l.buffer)

  reconnect-Armed : (s : CaenDigitizer V) → Armed (reconnect drv registers s)
  unfolding reconnect
  reconnect-Armed s =
      let s1 = (activate drv (drop_link drv s)).1 in
      let c = apply_config-driver drv registers s1 in
      let s2 = refresh_board_info drv (apply_config drv registers s1).1 in
      let k = refresh_board_info-Kept drv (apply_config drv registers s1).1 in
      elim (Bool-cases (activate drv (drop_link drv s)).0) [
        | inr e ↦ rw e (λ h. cc h)
        | inl e ↦ elim (Bool-cases (apply_config drv registers s1).0) [
          | inr e' ↦ rw (e, e') (λ h. cc h)
          | inl e' ↦ rw (e, e') (λ _. ap is_some (resume-buffer s2 ∙ k.buffer) ∙ c.2 e')
        ]
      ]

  -- When a readout goes as far as the driver's `ReadData`, there is a driver and a buffer for it,
  -- also after a reconnection.
  pub before_read-armed :
      (s : CaenDigitizer V)
      → (before_read drv registers s).0 ≡ true
      → (has_driver (before_read drv registers s).1 ≡ true)
        × (has_buffer (before_read drv registers s).1 ≡ true)
  unfolding before_read
  before_read-armed s = elim (Bool-cases (has_driver s)) [
    | inr e ↦ rw e (λ h. cc h)
    | inl e ↦ elim (Bool-cases (has_buffer s)) [
      | inr e' ↦ rw (e, e') (λ h. cc h)
      | inl e' ↦ elim (Bool-cases (connected drv s)) [
        | inl up ↦ rw (e, e', up) (λ _. (e, e'))
        | inr down ↦
            rw (e, e', down) (λ h. (reconnect-driver drv registers s e, reconnect-Armed s h))
      ]
    ]
  ]
