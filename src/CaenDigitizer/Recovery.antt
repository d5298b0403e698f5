-- ===== src/CaenDigitizer/Recovery.antt =====
-- The readout of a board whose link was lost.
use caen_daq.Base.{
  Bool, if◌then◌else◌, Bool-cases, List, Option, [], ap, false, inl, inr, is_some, none, refl,
  replicate, suc, true, zero, ℕ, ◌∙◌, ◌∷◌, ◌≡◌,
}
use caen_daq.CaenDigitizer.Operations.{read_buffer, before_read, drop_link, reconnect, read}
use caen_daq.CaenDigitizer.{CaenDigitizer, Driver, activate, connected, has_buffer, has_driver}
use caen_daq.CaenDigitizer.Config.{DumpEntry}
use caen_daq.CaenDigitizer.Driven.{drop_link_lem}
use caen_daq.CaenDigitizer.Ownership.{activate-driver}
use caen_daq.Board.{Text}

module _ {V : Type 0} (drv : Driver V) (registers : Text → Option (List DumpEntry)) where
  -- `n` readouts, one after the other.
  unfoldable pub read_times : ℕ → CaenDigitizer V → List (Option (List ℕ)) × CaenDigitizer V
  read_times zero s = ([], s)
  read_times (suc n) s =
      let (r, s') = read drv registers s in let (rs, last) = read_times n s' in (r ∷ rs, last)

  read-idle : (s : CaenDigitizer V) → has_buffer s ≡ false → read drv registers s ≡ (none, s)
  unfolding read before_read
  read-idle s h = elim (Bool-cases (has_driver s)) [ inl e ↦ rw (e, h) refl | inr e ↦ rw e refl ]

  read_times-idle :
      (n : ℕ) (s : CaenDigitizer V) → has_buffer s ≡ false → read_times n s ≡ (replicate n none, s)
  unfolding read_times
  read_times-idle zero s h = refl
  read_times-idle (suc n) s h = rw (read-idle s h, read_times-idle n s h) refl

  -- The reconnection that does not get the link leaves no buffer.
  reconnect-lost :
      (s : CaenDigitizer V)
      → has_driver s ≡ true
      → (activate drv (drop_link drv s)).0 ≡ false
      → ((reconnect drv registers s).0 ≡ false)
        × ((reconnect drv registers s).1.readout_buffer ≡ none)
  unfolding reconnect
  reconnect-lost s h e =
      rw e (refl, (activate-driver drv (drop_link drv s)).1 ∙ (drop_link_lem drv s h).1)

  read-down :
      (s : CaenDigitizer V)
      → has_driver s ≡ true
      → has_buffer s ≡ true
      → connected drv s ≡ false
      → (o : Bool × CaenDigitizer V) → reconnect drv registers s ≡ o
      → read drv registers s ≡ (if o.0 then read_buffer drv o.1 else (none, o.1))
  unfolding read before_read
  read-down s h b down o e =
      rw (h, b, down)
        (ap (λ (o : Bool × CaenDigitizer V). if o.0 then read_buffer drv o.1 else (none, o.1)) e)

  read-lost :
      (s : CaenDigitizer V)
      → has_driver s ≡ true
      → has_buffer s ≡ true
      → connected drv s ≡ false
      → (activate drv (drop_link drv s)).0 ≡ false
      → read drv registers s ≡ (none, (reconnect drv registers s).1)
  read-lost s h b down e =
      read-down s h b down (false, (reconnect drv registers s).1)
        (ap (λ (c : Bool). (c, (reconnect drv registers s).1)) (reconnect-lost s h e).0)

  -- Once the link of an open board is lost and cannot be opened again at once, every readout
  -- reports an error, and from the second one on nothing is done: no further reconnection is
  -- tried.
  pub read_times-lost :
      (n : ℕ) (s : CaenDigitizer V)
      → has_driver s ≡ true
      → has_buffer s ≡ true
      → connected drv s ≡ false
      → (activate drv (drop_link drv s)).0 ≡ false
      → read_times (suc n) s ≡ (replicate (suc n) none, (reconnect drv registers s).1)
  unfolding read_times
  read_times-lost n s h b down e =
      rw
        (
          read-lost s h b down e,
          read_times-idle n (reconnect drv registers s).1 (ap is_some (reconnect-lost s h e).1),
        )
        refl
