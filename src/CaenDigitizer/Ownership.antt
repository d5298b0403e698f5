-- ===== src/CaenDigitizer/Ownership.antt =====
-- Who holds the driver's handle and the readout buffer, through any use of a board.
use caen_daq.Base.{not, ◌||◌, Bool-cases, Option-cases, inl, inr, refl, true, ℕ, ◌∙◌, ◌≡◌}
use caen_daq.CaenDigitizer.{
  clear_error, connected, is_fault, make_driver, CaenDigitizer, Call, Driver, activate, call,
  has_driver, read_identity, read_reg, refresh_board_info, reg_acquisition_control,
  reg_board_configuration, reg_front_panel_io_ctrl, reg_global_trigger_mask, reg_run_delay,
  reg_trg_out_enable_mask,
}

-- What the calls of a driver leave as they are.
pub record Kept {V : Type 0} (s s' : CaenDigitizer V) : Type 0 where
  pub driver : has_driver s' ≡ has_driver s
  pub buffer : s'.readout_buffer ≡ s.readout_buffer
  pub runs : s'.running ≡ s.running

module _ {V : Type 0} where
  pub Kept-refl : (s : CaenDigitizer V) → Kept s s
  Kept-refl s = record { driver = refl; buffer = refl; runs = refl }

  pub Kept-trans : {s t u : CaenDigitizer V} → Kept s t → Kept t u → Kept s u
  Kept-trans k l = record {
    driver = l.driver ∙ k.driver;
    buffer = l.buffer ∙ k.buffer;
    runs = l.runs ∙ k.runs;
  }

  pub call-Kept : (f : Call V) (s : CaenDigitizer V) → Kept s (call f s)
  unfolding call
  call-Kept f s = elim (Option-cases s.dgtz) [
    | inl e ↦ rw e (record { driver = refl; buffer = refl; runs = refl })
    | inr (v, e) ↦ rw e (record { driver = refl; buffer = refl; runs = refl })
  ]

module _ {V : Type 0} (drv : Driver V) where
  read_reg-Kept : (addr : ℕ) (s : CaenDigitizer V) → Kept s (read_reg drv addr s).1
  unfolding read_reg
  read_reg-Kept addr s = elim (Option-cases s.dgtz) [
    | inl e ↦ rw e (record { driver = refl; buffer = refl; runs = refl })
    | inr (v, e) ↦ rw e (record { driver = refl; buffer = refl; runs = refl })
  ]

  read_identity-Kept : (s : CaenDigitizer V) → Kept s (read_identity drv s)
  unfolding read_identity
  read_identity-Kept s = elim (Option-cases s.dgtz) [
    | inl e ↦ rw e (record { driver = refl; buffer = refl; runs = refl })
    | inr (v, e) ↦ rw e (record { driver = refl; buffer = refl; runs = refl })
  ]

  six_reads :
      (a b c d e f : ℕ) (s : CaenDigitizer V)
      → Kept s
          (read_reg drv f
            (read_reg drv e
              (read_reg drv d (read_reg drv c (read_reg drv b (read_reg drv a s).1).1).1).1).1).1
  six_reads a b c d e f s = Kept-trans (read_reg-Kept a s) (
      Kept-trans (read_reg-Kept b _) (
        Kept-trans (read_reg-Kept c _)
          (Kept-trans (read_reg-Kept d _) (Kept-trans (read_reg-Kept e _) (read_reg-Kept f _)))))

  pub refresh_board_info-Kept : (s : CaenDigitizer V) → Kept s (refresh_board_info drv s)
  unfolding refresh_board_info
  refresh_board_info-Kept s =
      let k = Kept-trans (read_identity-Kept s) (
        six_reads reg_acquisition_control reg_board_configuration reg_front_panel_io_ctrl
          reg_global_trigger_mask reg_trg_out_enable_mask reg_run_delay (read_identity drv s)) in
      elim (Bool-cases (has_driver s)) [
        | inl e ↦ rw e (record { driver = k.driver; buffer = k.buffer; runs = k.runs })
        | inr e ↦ rw e (Kept-refl s)
      ]

  make_driver-cases :
      (s : CaenDigitizer V)
      → (has_driver (make_driver drv s) ≡ true)
        × ((make_driver drv s).readout_buffer ≡ s.readout_buffer)
        × ((make_driver drv s).running ≡ s.running)
  make_driver-cases s = elim (Option-cases s.dgtz) [
    | inl e ↦ rw e (refl, refl, refl)
    | inr (v, e) ↦ rw e (refl, refl, refl)
  ]

  abbrev open_call : CaenDigitizer V → CaenDigitizer V
  open_call s =
      call (drv.activate s.params.conn_type s.params.link_num s.params.node s.params.vme_base)
        (clear_error (make_driver drv s))

  -- After the connection was tried, there is a driver; the buffer's pointer is as before.
  pub activate-driver :
      (s : CaenDigitizer V)
      → (has_driver (activate drv s).1 ≡ true)
        × ((activate drv s).1.readout_buffer ≡ s.readout_buffer)
        × ((activate drv s).1.running ≡ s.running)
  unfolding activate
  activate-driver s =
      let opened = open_call s in
      let made = make_driver-cases s in
      let k =
        call-Kept
          (drv.activate s.params.conn_type s.params.link_num s.params.node s.params.vme_base)
          (clear_error (make_driver drv s)) in
      elim (Bool-cases (is_fault opened.errcode || not (connected drv opened))) [
        | inl e ↦ rw e (k.driver ∙ made.0, k.buffer ∙ made.1, k.runs ∙ made.2)
        | inr e ↦
            let l = refresh_board_info-Kept opened in
            rw e
              (l.driver ∙ k.driver ∙ made.0, l.buffer ∙ k.buffer ∙ made.1, l.runs ∙ k.runs ∙ made.2)
      ]
