-- ===== src/Daq/Access/Registers.antt =====
-- Which board an access by an index goes to.
use caen_daq.Base.{
  Option-cases, false, inl, inr, is_some, sym, Bool, Option, [], ap, get_elem?, map, none, refl,
  some, suc, zero, ℕ, ◌∙◌, ◌∷◌, ◌≡◌, List,
}
use caen_daq.BoardRunner.Lifecycle.{Board}
use caen_daq.Daq.Access.{read_register_at}
use caen_daq.Daq.Boards.{write_register_at}
use caen_daq.Daq.Session.{Daq, put_devs, read_nth, write_nth}
use caen_daq.Digitizer.{Digitizer}
use caen_daq.Base.Int.{ℤ, pos, negsuc}

-- The value that a read leaves in the caller's variable
abbrev pub value_or : ℕ → Option ℕ → ℕ
value_or old none = old
value_or old (some v) = v

module _ {D Frame : Type 0} where
  -- The boards with a new device for the one at the index; all as they are beyond the end
  abbrev pub with_dev : ℕ → D → List (Board D Frame) → List (Board D Frame)
  with_dev n d [] = []
  with_dev zero d (b ∷ bs) = record b { dev = d } ∷ bs
  with_dev (suc n) d (b ∷ bs) = b ∷ with_dev n d bs

  put_devs-same :
      (bs : List (Board D Frame)) → put_devs bs (map (λ (b : Board D Frame). b.dev) bs) ≡ bs
  unfolding put_devs
  put_devs-same [] = refl
  put_devs-same (b ∷ bs) = ap (λ (t : List (Board D Frame)). b ∷ t) (put_devs-same bs)

  -- What a call to the board at an index does to the boards: `o` is that board, if there is one.
  abbrev pub goes :
      {A : Type 0}
      → A
      → (D → A × D)
      → List (Board D Frame)
      → ℕ
      → Option (Board D Frame)
      → A × List (Board D Frame)
  goes missed call bs n none = (missed, bs)
  goes missed call bs n (some b) = ((call b.dev).0, with_dev n (call b.dev).1 bs)

  goes-cons :
      {A : Type 0} (missed : A) (call : D → A × D) (b : Board D Frame) (bs : List (Board D Frame))
      (n : ℕ) (o : Option (Board D Frame))
      → goes missed call (b ∷ bs) (suc n) o
        ≡ ((goes missed call bs n o).0, b ∷ (goes missed call bs n o).1)
  goes-cons missed call b bs n none = refl
  goes-cons missed call b bs n (some c) = refl

  -- A call to one board by its index: the answer `missed` and no change where there is none
  abbrev pub accessed : {A : Type 0} → A → (D → A × D) → ℤ → Daq D Frame → A × Daq D Frame
  accessed missed call (negsuc n) d = (missed, d)
  accessed missed call (pos n) d =
      let (answer, bs) = goes missed call d.boards n (get_elem? d.boards n) in
      (answer, record d { boards = bs })

module _ {D : Type 0} (ops : Digitizer D) where
  -- Whether a device could be read, and what the caller's variable holds then
  abbrev pub reading : ℕ → ℕ → D → (Bool × ℕ) × D
  reading address old e =
      let (answer, e') = ops.read_register address e in ((is_some answer, value_or old answer), e')

module _ {D Frame : Type 0} (ops : Digitizer D) where
  abbrev devices : List (Board D Frame) → List D
  devices bs = map (λ b. b.dev) bs

  write_nth-goes :
      (address value n : ℕ) (bs : List (Board D Frame))
      → (
        (write_nth ops n address value (devices bs)).0,
        put_devs bs (write_nth ops n address value (devices bs)).1,
      )
        ≡ goes false (ops.write_register address value) bs n (get_elem? bs n)
  unfolding write_nth put_devs
  write_nth-goes address value n [] = refl
  write_nth-goes address value zero (b ∷ bs) =
      let (done, e) = ops.write_register address value b.dev in
      ap (λ (t : List (Board D Frame)). (done, record b { dev = e } ∷ t)) (put_devs-same bs)
  write_nth-goes address value (suc n) (b ∷ bs) =
      ap (λ (r : Bool × List (Board D Frame)). (r.0, b ∷ r.1)) (write_nth-goes address value n bs)
      ∙ sym (goes-cons false (ops.write_register address value) b bs n (get_elem? bs n))

  read_nth-goes :
      (address old n : ℕ) (bs : List (Board D Frame))
      → (
        ((read_nth ops n address old (devices bs)).0, (read_nth ops n address old (devices bs)).1),
        put_devs bs (read_nth ops n address old (devices bs)).2,
      )
        ≡ goes (false, old) (reading ops address old) bs n (get_elem? bs n)
  unfolding read_nth put_devs
  read_nth-goes address old n [] = refl
  read_nth-goes address old zero (b ∷ bs) =
      elim (Option-cases (ops.read_register address b.dev).0) [
        | inl e ↦ rw (e, put_devs-same bs) refl
        | inr (v, e) ↦ rw (e, put_devs-same bs) refl
      ]
  read_nth-goes address old (suc n) (b ∷ bs) =
      ap (λ (r : (Bool × ℕ) × List (Board D Frame)). (r.0, b ∷ r.1))
        (read_nth-goes address old n bs)
      ∙ sym (goes-cons (false, old) (reading ops address old) b bs n (get_elem? bs n))

  -- A register access by an index goes to the board at that index, gives what its device answers
  -- and changes this device alone; at an index without a board it answers false, and neither the
  -- boards nor the caller's variable change.
  pub registers_at :
      (i : ℤ) (address value old : ℕ) (d : Daq D Frame)
      → (write_register_at ops i address value d
          ≡ accessed false (ops.write_register address value) i d)
        × (read_register_at ops i address old d
            ≡ (let r = accessed (false, old) (reading ops address old) i d in (r.0.0, r.0.1, r.1)))
  unfolding write_register_at read_register_at
  registers_at (negsuc n) address value old d = (refl, refl)
  registers_at (pos n) address value old d = (
    ap (λ (r : Bool × List (Board D Frame)). (r.0, record d { boards = r.1 }))
        (write_nth-goes address value n d.boards),
    ap (λ (r : (Bool × ℕ) × List (Board D Frame)). (r.0.0, r.0.1, record d { boards = r.1 }))
        (read_nth-goes address old n d.boards),
  )
