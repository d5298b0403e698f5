-- ===== src/Writer/Success.antt =====
-- When the system does its part, a write succeeds.
use caen_daq.Base.{
  ◌<◌, Bool-cases, List, [], arith, false, inl, inr, length, refl, true, ℕ, ◌++◌, ◌+◌, ◌==◌, ◌∷◌,
  ◌≡◌,
}
use caen_daq.Writer.Layout.{Owns, put_block-ok}
use caen_daq.Writer.Fresh.{unique_path-fresh}
use caen_daq.Writer.Parts.{fresh_part, next_part, next_path, opened, write_stays}
use caen_daq.Writer.{Disk, Io, Writer, exists, must_rotate, put_block, unique_path, write}

-- Every system call of the write succeeds.
pub record Works (io : Io) : Type 0 where
  pub directory : io.directory_ok ≡ true
  pub opens : io.open_ok ≡ true
  pub writes : io.write_ok ≡ true

write_empty : (io : Io) (w : Writer) (d : Disk) → w.closed ≡ false → write io [] w d ≡ (true, w, d)
unfolding write
write_empty io w d going = rw going refl

-- The open part of a writer takes any block.
put_block-succeeds :
    (io : Io) (block : List ℕ) (w : Writer) (d : Disk)
    → Owns w d
    → Works io
    → w.closed ≡ false
    → ((put_block io block w d).0 ≡ true) × ((put_block io block w d).1.closed ≡ false)
put_block-succeeds io block w d o k going = rw (put_block-ok io block w d o k.writes) (refl, going)

rotated-succeeds :
    (io : Io) (block : List ℕ) (w : Writer) (d : Disk)
    → exists (unique_path w.cfg.run_number (w.cycle + 1) d) d ≡ false
    → Works io
    → w.closed ≡ false
    → (length block == 0) ≡ false
    → must_rotate w block ≡ true
    → ((write io block w d).0 ≡ true) × ((write io block w d).1.closed ≡ false)
rotated-succeeds io block w d free k going some_byte full =
    rw (opened io block w d going some_byte full free k.directory k.opens) (
      put_block-succeeds io block (next_part w d) (d ++ (next_path w d, []) ∷ [])
        (fresh_part w d free) k refl)

-- If every system call succeeds, a write on a writer that is not closed returns true, and the
-- writer stays usable. The open part is the last file, its size is counted, and there are fewer
-- than 99999 files.
pub write-succeeds :
    (io : Io) (block : List ℕ) (w : Writer) (d : Disk)
    → Owns w d
    → length d < 99999
    → Works io
    → w.closed ≡ false
    → ((write io block w d).0 ≡ true) × ((write io block w d).1.closed ≡ false)
write-succeeds io [] w d o few k going = rw (write_empty io w d going) (refl, going)
write-succeeds io (b ∷ block) w d o few k going = elim (Bool-cases (must_rotate w (b ∷ block))) [
  | inl full ↦
      let free = unique_path-fresh w.cfg.run_number (w.cycle + 1) d few in
      rotated-succeeds io (b ∷ block) w d free k going (ground arith) full
  | inr fits ↦
      rw (write_stays io (b ∷ block) w d going (ground arith) fits)
        (put_block-succeeds io (b ∷ block) w d o k going)
]
