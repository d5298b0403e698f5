-- ===== src/CaenDigitizer/Driven.antt =====
-- No operation but `close` takes the driver away from a board that has one.
use caen_daq.Base.{
  Bool, if-split, not, arith, false, is_some, some, ℕ, Bool-cases, List, Option, Option-cases, [],
  inl, inr, length, none, refl, true, ◌==◌, ◌∙◌, ◌∷◌, ◌≡◌,
}
use caen_daq.CaenDigitizer.{
  activate, is_synchronised, CaenDigitizer, Driver, call, clear_error, has_buffer, has_driver,
  reg_acquisition_control,
}
use caen_daq.CaenDigitizer.Config.{
  free_only, free_at, DumpEntry, allocate_buffer, apply_config, apply_entries, apply_entry,
  apply_register_dump, load_config, release_buffer, strtoul_16,
}
use caen_daq.CaenDigitizer.Operations.{reconnect, resume, arm, drop_link, start}
use caen_daq.CaenDigitizer.Ownership.{
  activate-driver, refresh_board_info-Kept, Kept-refl, Kept-trans, call-Kept, Kept,
}
use caen_daq.Base.Words.{u32}
use caen_daq.Board.{Text}

pub no_value : {A : Type 0} (o : Option A) → is_some o ≡ false → o ≡ none
no_value none h = refl
no_value (some a) h = cc h

module _ {V : Type 0} (drv : Driver V) where
  free_at-Kept :
      (o : Option ℕ) (s : CaenDigitizer V)
      → s.readout_buffer ≡ o
      → (has_driver (free_at drv o s) ≡ has_driver s)
        × ((free_at drv o s).readout_buffer ≡ none)
        × ((free_at drv o s).running ≡ s.running)
  unfolding free_at
  free_at-Kept none s e = (refl, e, refl)
  free_at-Kept (some b) s e = let k = call-Kept (drv.free_buffer b) s in (k.driver, refl, k.runs)

  pub free_only-Kept :
      (s : CaenDigitizer V)
      → (has_driver (free_only drv s) ≡ has_driver s)
        × ((free_only drv s).readout_buffer ≡ none)
        × ((free_only drv s).running ≡ s.running)
  unfolding free_only
  free_only-Kept s = free_at-Kept s.readout_buffer s refl

  pub release_buffer-driver :
      (s : CaenDigitizer V)
      → (has_driver (release_buffer drv s) ≡ has_driver s)
        × ((release_buffer drv s).readout_buffer ≡ none)
        × ((release_buffer drv s).running ≡ s.running)
  unfolding release_buffer
  release_buffer-driver s = elim (Bool-cases (has_buffer s)) [
    | inl e ↦ let f = free_only-Kept s in rw e (f.0, f.1, f.2)
    | inr e ↦ rw e (refl, no_value s.readout_buffer e, refl)
  ]

  -- Memory was given, or the result is false.
  pub allocate_buffer-driver :
      (s : CaenDigitizer V)
      → (has_driver (allocate_buffer drv s).1 ≡ has_driver s)
        × ((allocate_buffer drv s).1.running ≡ s.running)
        × ((allocate_buffer drv s).0 ≡ true → has_buffer (allocate_buffer drv s).1 ≡ true)
  unfolding allocate_buffer
  allocate_buffer-driver s = elim (Option-cases s.dgtz) [
    | inl e ↦ rw e (refl, refl, λ h. cc h)
    | inr (v, e) ↦ rw e (refl, refl, λ h. ground arith)
  ]

  pub drop_link_lem :
      (s : CaenDigitizer V)
      → has_driver s ≡ true
      → (has_driver (drop_link drv s) ≡ true)
        × ((drop_link drv s).readout_buffer ≡ none)
        × ((drop_link drv s).running ≡ s.running)
  unfolding drop_link
  drop_link_lem s h =
      let f = free_only-Kept s in
      let k = call-Kept drv.deactivate (free_only drv s) in
      rw h (k.driver ∙ f.0 ∙ h, k.buffer ∙ f.1, k.runs ∙ f.2)

  pub start-driver : (s : CaenDigitizer V) → has_driver (start drv s).1 ≡ has_driver s
  unfolding start
  start-driver s =
      let k =
        Kept-trans (call-Kept drv.clear_data (clear_error s))
          (call-Kept drv.sw_start (call drv.clear_data (clear_error s))) in
      ground (arith, k.driver)

  pub arm-driver : (s : CaenDigitizer V) → has_driver (arm drv s).1 ≡ has_driver s
  unfolding arm
  arm-driver s =
      let k = Kept-trans (call-Kept drv.clear_data (clear_error s)) (
        call-Kept (drv.set_register_bits reg_acquisition_control 2 2 1)
          (call drv.clear_data (clear_error s))) in
      ground (arith, k.driver)

module _ {V : Type 0} (drv : Driver V) (registers : Text → Option (List DumpEntry)) where
  apply_entry-Kept : (r : DumpEntry) (s : CaenDigitizer V) → Kept s (apply_entry drv registers r s)
  unfolding apply_entry
  apply_entry-Kept r s = elim (Option-cases r.address) [
    | inl e ↦ rw e (Kept-refl s)
    | inr (a, e) ↦ elim (Option-cases r.value) [
      | inl e' ↦ rw (e, e') (Kept-refl s)
      | inr (v, e') ↦
          let k =
            call-Kept (drv.write_register (u32 (strtoul_16 a)) (u32 (strtoul_16 v)))
              (clear_error s) in
          rw (e, e') (record { driver = k.driver; buffer = k.buffer; runs = k.runs })
    ]
  ]

  apply_entries-Kept :
      (rs : List DumpEntry) (s : CaenDigitizer V) → Kept s (apply_entries drv registers rs s)
  unfolding apply_entries
  apply_entries-Kept [] s = Kept-refl s
  apply_entries-Kept (r ∷ rs) s = Kept-trans (apply_entry-Kept r s) (apply_entries-Kept rs _)

  apply_register_dump-Kept :
      (path : Text) (s : CaenDigitizer V) → Kept s (apply_register_dump drv registers path s).1
  unfolding apply_register_dump
  apply_register_dump-Kept path s = elim (Option-cases (registers path)) [
    | inl e ↦ rw (apply_register_dump, e) (Kept-refl s)
    | inr (entries, e) ↦ rw (apply_register_dump, e) (apply_entries-Kept entries s)
  ]

  pub load_config-Kept : (s : CaenDigitizer V) → Kept s (load_config drv registers s).1
  unfolding load_config
  load_config-Kept s =
      let k = apply_register_dump-Kept s.params.config_path s in
      let l =
        call-Kept (drv.configure_from_file s.params.config_path)
          (clear_error (apply_register_dump drv registers s.params.config_path s).1) in
      elim (Bool-cases (length s.params.config_path == 0)) [
        | inl e ↦ rw e (Kept-refl s)
        | inr e ↦ elim (Bool-cases (apply_register_dump drv registers s.params.config_path s).0) [
          | inl e' ↦ rw (e, e') k
          | inr e' ↦
              rw (e, e')
                (Kept-trans k (record { driver = l.driver; buffer = l.buffer; runs = l.runs }))
        ]
      ]

  -- A configuration that succeeds leaves a buffer.
  pub apply_config-driver :
      (s : CaenDigitizer V)
      → (has_driver (apply_config drv registers s).1 ≡ has_driver s)
        × ((apply_config drv registers s).1.running ≡ s.running)
        × ((apply_config drv registers s).0 ≡ true
            → has_buffer (apply_config drv registers s).1 ≡ true)
  unfolding apply_config
  apply_config-driver s =
      let k = load_config-Kept s in
      let r = release_buffer-driver drv (load_config drv registers s).1 in
      let a = allocate_buffer-driver drv (release_buffer drv (load_config drv registers s).1) in
      elim (Bool-cases (has_driver s)) [
        | inr e ↦ rw e (e, refl, λ h. cc h)
        | inl e ↦ elim (Bool-cases (load_config drv registers s).0) [
          | inl e' ↦ rw (e, e') (a.0 ∙ r.0 ∙ k.driver ∙ e, a.1 ∙ r.2 ∙ k.runs, a.2)
          | inr e' ↦ rw (e, e') (k.driver ∙ e, k.runs, λ h. cc h)
        ]
      ]

  pub resume-driver :
      (s : CaenDigitizer V) → has_driver s ≡ true → has_driver (resume drv s).1 ≡ true
  unfolding resume
  resume-driver s h =
      let k =
        Kept-trans (call-Kept drv.clear_data (clear_error s))
          (call-Kept drv.sw_start (call drv.clear_data (clear_error s))) in
      let has = λ (r : Bool × CaenDigitizer V). has_driver r.1 ≡ true in
      if-split has (not s.running) (λ _. h)
        (λ _.
          if-split has (is_synchronised s) (λ _. arm-driver drv (record s { running = false }) ∙ h)
            (λ _. k.driver ∙ h))

  -- The reconnection of a board that has a driver.
  pub reconnect-driver :
      (s : CaenDigitizer V) → has_driver s ≡ true → has_driver (reconnect drv registers s).1 ≡ true
  unfolding reconnect
  reconnect-driver s h =
      let o = activate-driver drv (drop_link drv s) in
      let c = apply_config-driver (activate drv (drop_link drv s)).1 in
      elim (Bool-cases (activate drv (drop_link drv s)).0) [
        | inr e ↦ rw e o.0
        | inl e ↦
            elim (Bool-cases (apply_config drv registers (activate drv (drop_link drv s)).1).0) [
              | inr e' ↦ rw (e, e') (c.0 ∙ o.0)
              | inl e' ↦
                  let f =
                    refresh_board_info-Kept drv
                      (apply_config drv registers (activate drv (drop_link drv s)).1).1 in
                  rw (e, e') (resume-driver _ (f.driver ∙ c.0 ∙ o.0))
            ]
      ]
