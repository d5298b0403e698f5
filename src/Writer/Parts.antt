-- ===== src/Writer/Parts.antt =====
-- The parts of a run together: nothing is overwritten, lost or reordered, and the limit is kept.
-- What the caller learns from a write that returned true.
use caen_daq.Base.{
  Bool, Bool-cases, List, [], arith, false, if◌then◌else◌, inl, inr, length, length-append, refl,
  some, true, ℕ, ◌&&◌, ◌++◌, ◌+◌, ◌<◌, ◌==◌, ◌^◌, ◌∷◌, ◌≡◌, ◌≤◌, ◌⊎◌,
}
use caen_daq.Board.{Text}
use caen_daq.Writer.{
  Disk, Io, Writer, exists, must_rotate, open_cycle, put_block, unique_path, write,
}
use caen_daq.Writer.Fresh.{unique_path-fresh}
use caen_daq.Writer.Layout.{
  Owns, Wrote, grew, open_cycle-bad, open_cycle-ok, put_block-bad, put_block-ok, rolled,
}

pub record Written (w : Writer) (block : List ℕ) (d : Disk) (out : Bool × Writer × Disk)
    : Type 0 where
  pub wrote : Wrote w block d out.2
  pub owns : Owns out.1 out.2
  pub limit :
      (w.cfg.max_file_bytes ≡ 0)
      ⊎ ((out.1.file_bytes ≤ w.cfg.max_file_bytes) ⊎ (out.1.file_bytes ≡ length block))

put_block-Written :
    (io : Io) (block : List ℕ) (w : Writer) (d : Disk)
    → Owns w d
    → must_rotate w block ≡ false
    → length block < 2 ^ 64
    → (put_block io block w d).0 ≡ true
    → Written w block d (put_block io block w d)
put_block-Written io block w d o fits small done = elim (Bool-cases io.write_ok) [
  | inl good ↦ rw (put_block-ok io block w d o good) (record {
    wrote = grew o.before o.path o.content o.layout refl;
    owns = record {
      before = o.before;
      path = o.path;
      content = o.content ++ block;
      layout = refl;
      fresh = o.fresh;
      is_file = o.is_file;
      counted = omega (arith, o.counted, length-append o.content block);
    };
    limit = ground arith;
  })
  | inr bad ↦ cc (put_block-bad io block w d bad)
]

pub write_closed :
    (io : Io) (block : List ℕ) (w : Writer) (d : Disk)
    → w.closed ≡ true
    → (write io block w d).0 ≡ false
unfolding write
write_closed io block w d h = rw h refl

pub write_stays :
    (io : Io) (block : List ℕ) (w : Writer) (d : Disk)
    → w.closed ≡ false
    → (length block == 0) ≡ false
    → must_rotate w block ≡ false
    → write io block w d ≡ put_block io block w d
unfolding write
write_stays io block w d going some_byte fits = rw (going, some_byte, fits) refl

write_rotates :
    (io : Io) (block : List ℕ) (w : Writer) (d : Disk)
    → w.closed ≡ false
    → (length block == 0) ≡ false
    → must_rotate w block ≡ true
    → write io block w d ≡ (
        let (opened, w', d') = open_cycle false io (record w { cycle = w.cycle + 1 }) d in
        if opened then put_block io block w' d' else (false, w', d'))
unfolding write
write_rotates io block w d going some_byte full = rw (going, some_byte, full) refl

not_opened :
    (io : Io) (block : List ℕ) (out : Bool × Writer × Disk)
    → out.0 ≡ false
    → (let (opened, w', d') = out in if opened then put_block io block w' d' else (false, w', d')).0
      ≡ false
not_opened io block (true, w', d') h = cc
not_opened io block (false, w', d') h = refl

-- The name and the state of the part that a rotation opens.
abbrev pub next_path : Writer → Disk → Text
next_path w d = unique_path w.cfg.run_number (w.cycle + 1) d

abbrev pub next_part : Writer → Disk → Writer
next_part w d = record w {
  cycle = w.cycle + 1;
  file = some (next_path w d);
  file_bytes = 0;
  closed = false;
}

pub fresh_part :
    (w : Writer) (d : Disk)
    → exists (next_path w d) d ≡ false
    → Owns (next_part w d) (d ++ (next_path w d, []) ∷ [])
fresh_part w d free = record {
  before = d;
  path = next_path w d;
  content = [];
  layout = refl;
  fresh = free;
  is_file = refl;
  counted = refl;
}

pub opened :
    (io : Io) (block : List ℕ) (w : Writer) (d : Disk)
    → w.closed ≡ false
    → (length block == 0) ≡ false
    → must_rotate w block ≡ true
    → exists (next_path w d) d ≡ false
    → io.directory_ok ≡ true
    → io.open_ok ≡ true
    → write io block w d ≡ put_block io block (next_part w d) (d ++ (next_path w d, []) ∷ [])
opened io block w d going some_byte full free dir opens =
    rw
      (
        write_rotates io block w d going some_byte full,
        open_cycle-ok io (record w { cycle = w.cycle + 1 }) d free dir opens,
      )
      refl

stuck :
    (io : Io) (block : List ℕ) (w : Writer) (d : Disk)
    → w.closed ≡ false
    → (length block == 0) ≡ false
    → must_rotate w block ≡ true
    → (io.directory_ok && io.open_ok) ≡ false
    → (write io block w d).0 ≡ false
stuck io block w d going some_byte full bad = rw (write_rotates io block w d going some_byte full) (
    not_opened io block (open_cycle false io (record w { cycle = w.cycle + 1 }) d)
      (open_cycle-bad io (record w { cycle = w.cycle + 1 }) d bad))

-- The part that a rotation opened, with the block as its content.
rolled-Written :
    (io : Io) (block : List ℕ) (w : Writer) (d : Disk)
    → w.closed ≡ false
    → (length block == 0) ≡ false
    → must_rotate w block ≡ true
    → exists (next_path w d) d ≡ false
    → length block < 2 ^ 64
    → (write io block w d).0 ≡ true
    → Written w block d (write io block w d)
unfolding fresh_part
rolled-Written io block w d going some_byte full free small done =
    elim (Bool-cases (io.directory_ok && io.open_ok)) [
      | inl opens ↦
          let e = opened io block w d going some_byte full free (ground arith) (ground arith) in
          elim (Bool-cases io.write_ok) [
            | inl good ↦
                rw
                  (
                    e,
                    put_block-ok io block (next_part w d) (d ++ (next_path w d, []) ∷ [])
                        (fresh_part w d free) good,
                  )
                  (record {
                    wrote = rolled (next_path w d) free refl;
                    owns = record {
                      before = d;
                      path = next_path w d;
                      content = block;
                      layout = refl;
                      fresh = free;
                      is_file = refl;
                      counted = omega arith;
                    };
                    limit = inr (inr (omega arith));
                  })
            | inr bad ↦
                cc (e, put_block-bad io block (next_part w d) (d ++ (next_path w d, []) ∷ []) bad)
          ]
      | inr shut_out ↦ cc (stuck io block w d going some_byte full shut_out)
    ]

-- A write that returned true: the block follows all the bytes that were on the disk, at the end
-- of the open part or as a new part under a name that was free; no other file changed; the open
-- part is within the limit, or holds this block alone. The conditions are that the open part is
-- the last file and its size is counted, that there are fewer than 99999 files, and that the
-- block is not empty and below 2^64 bytes.
pub write-Written :
    (io : Io) (block : List ℕ) (w : Writer) (d : Disk)
    → Owns w d
    → length d < 99999
    → 0 < length block
    → length block < 2 ^ 64
    → (write io block w d).0 ≡ true
    → Written w block d (write io block w d)
write-Written io block w d o few some_byte small done = elim (Bool-cases w.closed) [
  | inl over ↦ cc (write_closed io block w d over)
  | inr going ↦ elim (Bool-cases (must_rotate w block)) [
    | inl full ↦
        let free = unique_path-fresh w.cfg.run_number (w.cycle + 1) d few in
        rolled-Written io block w d going (ground arith) full free small done
    | inr fits ↦ rw (write_stays io block w d going (ground arith) fits) (
        put_block-Written io block w d o fits small
          (cc (write_stays io block w d going (ground arith) fits)))
  ]
]
