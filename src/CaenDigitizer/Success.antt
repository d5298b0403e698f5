-- ===== src/CaenDigitizer/Success.antt =====
-- A board whose driver does its part.
use caen_daq.Base.{
  ◌∙◌, Bool-cases, List, Option, Option-cases, ap, false, inl, inr, is_some, length, refl, true, ℕ,
  ◌==◌, ◌≡◌,
}
use caen_daq.CaenDigitizer.{
  connected, has_buffer, make_driver, CaenDigitizer, Call, Driver, activate, call, clear_error,
  has_driver, is_fault,
}
use caen_daq.CaenDigitizer.Config.{
  apply_config, configure, release_buffer, DumpEntry, allocate_buffer, apply_register_dump,
  load_config,
}
use caen_daq.CaenDigitizer.Driven.{apply_config-driver, load_config-Kept, release_buffer-driver}
use caen_daq.CaenDigitizer.Ownership.{
  Kept-trans, activate-driver, call-Kept, refresh_board_info-Kept,
}
use caen_daq.Base.Int.{ℤ, pos}
use caen_daq.Board.{Text}
use caen_daq.CaenDigitizer.Operations.{start}

-- A call that leaves the error code as it is.
abbrev pub Quiet : {V : Type 0} → Call V → Type 0
Quiet {V} f = (e : ℤ) (v : V) → (f e v).0 ≡ e

-- The link is opened, memory is given, and no call that a start needs sets the error code.
pub record Obeys {V : Type 0} (drv : Driver V) : Type 0 where
  pub activates : (c l n b : ℕ) → Quiet (drv.activate c l n b)
  pub active : (c l n b : ℕ) (e : ℤ) (v : V) → drv.is_active (drv.activate c l n b e v).1 ≡ true
  pub configures : (path : Text) → Quiet (drv.configure_from_file path)
  pub gives : (e : ℤ) (v : V) → is_some (drv.malloc_buffer e v).0 ≡ true
  pub gives_quietly : (e : ℤ) (v : V) → (drv.malloc_buffer e v).2 ≡ e
  pub clears : Quiet drv.clear_data
  pub starts : Quiet drv.sw_start

no_fault : (e : ℤ) → e ≡ pos 0 → is_fault e ≡ false
no_fault e h = rw h refl

module _ {V : Type 0} where
  call-code : (f : Call V) (s : CaenDigitizer V) → Quiet f → (call f s).errcode ≡ s.errcode
  unfolding call
  call-code f s q = elim (Option-cases s.dgtz) [
    | inl e ↦ rw e refl
    | inr (v, e) ↦ rw e (q s.errcode v)
  ]

module _ {V : Type 0} (drv : Driver V) where
  call-connected :
      (f : Call V) (s : CaenDigitizer V)
      → has_driver s ≡ true
      → ((e : ℤ) (v : V) → drv.is_active (f e v).1 ≡ true)
      → connected drv (call f s) ≡ true
  unfolding call connected
  call-connected f s h up = elim (Option-cases s.dgtz) [
    | inl e ↦ cc (h, ap is_some e)
    | inr (v, e) ↦ rw e (up s.errcode v)
  ]

  made : (s : CaenDigitizer V) → has_driver (make_driver drv s) ≡ true
  made s = elim (Option-cases s.dgtz) [ inl e ↦ rw e refl | inr (v, e) ↦ rw e refl ]

  activate-opens : (s : CaenDigitizer V) → Obeys drv → (activate drv s).0 ≡ true
  unfolding activate
  activate-opens s o =
      let p = s.params in
      let f = drv.activate p.conn_type p.link_num p.node p.vme_base in
      let s' = clear_error (make_driver drv s) in
      let code = call-code f s' (o.activates p.conn_type p.link_num p.node p.vme_base) in
      let up = call-connected f s' (made s) (o.active p.conn_type p.link_num p.node p.vme_base) in
      rw (no_fault (call f s').errcode code, up) refl

  start-goes :
      (s : CaenDigitizer V)
      → has_driver s ≡ true
      → Obeys drv
      → ((start drv s).0 ≡ true)
        × ((start drv s).1.running ≡ true)
        × ((start drv s).1.readout_buffer ≡ s.readout_buffer)
  unfolding start
  start-goes s h o =
      let s1 = call drv.clear_data (clear_error s) in
      let code =
        call-code drv.sw_start s1 o.starts ∙ call-code drv.clear_data (clear_error s) o.clears in
      let k = Kept-trans (call-Kept drv.clear_data (clear_error s)) (call-Kept drv.sw_start s1) in
      rw (h, no_fault (call drv.sw_start s1).errcode code) (refl, refl, k.buffer)

module _ {V : Type 0} (drv : Driver V) (registers : Text → Option (List DumpEntry)) where
  load_config-found : (s : CaenDigitizer V) → Obeys drv → (load_config drv registers s).0 ≡ true
  unfolding load_config
  load_config-found s o =
      let p = s.params.config_path in
      let dumped = (apply_register_dump drv registers p s).1 in
      let quiet = call-code (drv.configure_from_file p) (clear_error dumped) (o.configures p) in
      elim (Bool-cases (length p == 0)) [
        | inl e ↦ rw e refl
        | inr e ↦ elim (Bool-cases (apply_register_dump drv registers p s).0) [
          | inl e' ↦ rw (e, e') refl
          | inr e' ↦ rw (e, e', quiet) refl
        ]
      ]

  allocate_buffer-gives :
      (s : CaenDigitizer V) → has_driver s ≡ true → Obeys drv → (allocate_buffer drv s).0 ≡ true
  unfolding allocate_buffer
  allocate_buffer-gives s h o = elim (Option-cases s.dgtz) [
    | inl e ↦ cc (h, ap is_some e)
    | inr (v, e) ↦
        rw
          (
            e,
            no_fault (drv.malloc_buffer (pos 0) v).2 (o.gives_quietly (pos 0) v),
            o.gives (pos 0) v,
          )
          refl
  ]

  apply_config-done :
      (s : CaenDigitizer V)
      → has_driver s ≡ true
      → Obeys drv
      → (apply_config drv registers s).0 ≡ true
  unfolding apply_config
  apply_config-done s h o =
      let loaded = (load_config drv registers s).1 in
      let r = release_buffer-driver drv loaded in
      let k = load_config-Kept drv registers s in
      rw (h, load_config-found s o)
        (allocate_buffer-gives (release_buffer drv loaded) (r.0 ∙ k.driver ∙ h) o)

  configure-done :
      (s : CaenDigitizer V)
      → has_driver s ≡ true
      → Obeys drv
      → ((configure drv registers s).0 ≡ true)
        × (has_driver (configure drv registers s).1 ≡ true)
        × (has_buffer (configure drv registers s).1 ≡ true)
  unfolding configure
  configure-done s h o =
      let a = apply_config-driver drv registers s in
      let done = apply_config-done s h o in
      let k = refresh_board_info-Kept drv (apply_config drv registers s).1 in
      rw done (refl, k.driver ∙ a.0 ∙ h, ap is_some k.buffer ∙ a.2 done)

  -- If the driver opens the link, gives memory and sets no error code, then opening, configuring
  -- and starting a board all succeed, whatever state it was in, and leave it running with a
  -- readout buffer.
  pub bring_up :
      (s : CaenDigitizer V)
      → Obeys drv
      → ((activate drv s).0 ≡ true)
        × ((configure drv registers (activate drv s).1).0 ≡ true)
        × ((start drv (configure drv registers (activate drv s).1).1).0 ≡ true)
        × ((start drv (configure drv registers (activate drv s).1).1).1.running ≡ true)
        × (has_buffer (start drv (configure drv registers (activate drv s).1).1).1 ≡ true)
  bring_up s o =
      let c = configure-done (activate drv s).1 (activate-driver drv s).0 o in
      let g = start-goes drv (configure drv registers (activate drv s).1).1 c.1 o in
      (activate-opens drv s o, c.0, g.0, g.1, ap is_some g.2 ∙ c.2)
