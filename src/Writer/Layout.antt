-- ===== src/Writer/Layout.antt =====
-- The parts of a run on the disk, and what one write or one opening does to them.
use caen_daq.Base.{
  List, [], ap, arith, false, length, refl, some, sym, true, ℕ, ◌&&◌, ◌++◌, ◌+◌, ◌∙◌, ◌∷◌, ◌≡◌,
}
use caen_daq.Base.Words.{u64}
use caen_daq.Board.{Text}
use caen_daq.Writer.{
  Disk, Io, Writer, append_file, exists, open_cycle, open_file, put_block, unique_path,
}
use caen_daq.Writer.Names.{same_text, same_text_iff}
use mathlib.Core.List.{append_assoc, append-nil}

-- All the bytes on the disk, part after part.
abbrev pub all_bytes : Disk → List ℕ
all_bytes [] = []
all_bytes ((p, bytes) ∷ d) = bytes ++ all_bytes d

pub all_bytes-append : (d e : Disk) → all_bytes (d ++ e) ≡ all_bytes d ++ all_bytes e
all_bytes-append [] e = refl
all_bytes-append ((p, bytes) ∷ d) e =
    ap (λ (t : List ℕ). bytes ++ t) (all_bytes-append d e)
    ∙ sym (append_assoc bytes (all_bytes d) (all_bytes e))

open_file-new : (p : Text) (d : Disk) → exists p d ≡ false → open_file p d ≡ d ++ (p, []) ∷ []
unfolding exists open_file
open_file-new p [] h = refl
open_file-new p ((q, bytes) ∷ d) h = ground (arith, open_file-new p d)

same_text_self : (p : Text) → same_text p p ≡ true
same_text_self p = (same_text_iff p p).1 refl

append_file-last :
    (p : Text) (new bytes : List ℕ) (d : Disk)
    → exists p d ≡ false
    → append_file p new (d ++ (p, bytes) ∷ []) ≡ d ++ (p, bytes ++ new) ∷ []
unfolding exists append_file
append_file-last p new bytes [] h = ground (arith, same_text_self p)
append_file-last p new bytes ((q, other) ∷ d) h = ground (arith, append_file-last p new bytes d)

-- The open part is the last file of the disk, under a name of its own, and its size is counted.
pub record Owns (w : Writer) (d : Disk) : Type 0 where
  pub before : Disk
  pub path : Text
  pub content : List ℕ
  pub layout : d ≡ before ++ (path, content) ∷ []
  pub fresh : exists path before ≡ false
  pub is_file : w.file ≡ some path
  pub counted : w.file_bytes ≡ u64 (length content)

-- What a successful write did to the disk: the open part grew by the block, or the block is the
-- whole of a new part. No other file changed.
pub data Wrote (w : Writer) (block : List ℕ) (d d' : Disk) : Type 0 where
  grew :
      (before : Disk) (path : Text) (content : List ℕ)
      → d ≡ before ++ (path, content) ∷ []
      → d' ≡ before ++ (path, content ++ block) ∷ []
      → Wrote w block d d'
  rolled : (path : Text) → exists path d ≡ false → d' ≡ d ++ (path, block) ∷ [] → Wrote w block d d'

pub Wrote-all_bytes :
    {w : Writer} {block : List ℕ} {d d' : Disk}
    → Wrote w block d d'
    → all_bytes d' ≡ all_bytes d ++ block
Wrote-all_bytes {block = block} (grew before path content e e') =
    rw (e, e', all_bytes-append, all_bytes-append, append-nil, append-nil)
      (sym (append_assoc (all_bytes before) content block))
Wrote-all_bytes {block = block} {d = d} (rolled path h e) = rw (e, all_bytes-append, append-nil)

pub put_block-ok :
    (io : Io) (block : List ℕ) (w : Writer) (d : Disk) (o : Owns w d)
    → io.write_ok ≡ true
    → put_block io block w d ≡ (
      true,
      record w {
        file_bytes = u64 (w.file_bytes + length block);
        total_bytes = u64 (w.total_bytes + length block);
        total_buffers = u64 (w.total_buffers + 1);
      },
      o.before ++ (o.path, o.content ++ block) ∷ [],
    )
unfolding put_block
put_block-ok io block w d o good =
    ground (arith, o.is_file, o.layout, append_file-last o.path block o.content o.before o.fresh)

pub open_cycle-ok :
    (io : Io) (w : Writer) (d : Disk)
    → exists (unique_path w.cfg.run_number w.cycle d) d ≡ false
    → io.directory_ok ≡ true
    → io.open_ok ≡ true
    → open_cycle false io w d ≡ (
      true,
      record w {
        file = some (unique_path w.cfg.run_number w.cycle d);
        file_bytes = 0;
        closed = false;
      },
      d ++ (unique_path w.cfg.run_number w.cycle d, []) ∷ [],
    )
unfolding open_cycle
open_cycle-ok io w d free dir opens =
    rw (dir, opens, open_file-new (unique_path w.cfg.run_number w.cycle d) d free)

pub put_block-bad :
    (io : Io) (block : List ℕ) (w : Writer) (d : Disk)
    → io.write_ok ≡ false
    → (put_block io block w d).0 ≡ false
unfolding put_block
put_block-bad io block w d bad = rw bad

pub open_cycle-bad :
    (io : Io) (w : Writer) (d : Disk)
    → (io.directory_ok && io.open_ok) ≡ false
    → (open_cycle false io w d).0 ≡ false
unfolding open_cycle
open_cycle-bad io w d bad = ground arith
