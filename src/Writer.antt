-- ===== src/Writer.antt =====
-- src/RawFileWriter.cpp: the file that all boards share, in numbered parts.
pub mod Names
pub mod Layout
pub mod Parts
pub mod Success
pub mod Fresh
use caen_daq.Base.{
  Bool, List, Option, [], false, if◌then◌else◌, length, ltb, none, not, some, suc, take, true, zero,
  ℕ, ◌&&◌, ◌++◌, ◌+◌, ◌==◌, ◌||◌, ◌∷◌,
}
use caen_daq.Base.Words.{u64}
use caen_daq.Board.{Text}
use caen_daq.Header.{BoardDef, build_xdaq_header, bytes_of}
use Names.{make_path, path_stem, candidate, same_text}

-- The part files of the output directory, in the order in which they were opened, with what has
-- been handed to the stream. Opening an existing file truncates it.
abbrev pub Disk : Type 0
Disk = List (Text × List ℕ)

pub record WriterConfig : Type 0 where
  pub run_number : ℕ
  pub max_file_bytes : ℕ  -- 0: no limit
  pub write_header : Bool

pub record Writer : Type 0 where
  pub cfg : WriterConfig
  pub board_defs : List BoardDef
  pub file : Option Text  -- the open stream's file
  pub cycle : ℕ
  pub file_bytes : ℕ  -- uint64
  pub total_bytes : ℕ  -- uint64
  pub total_buffers : ℕ  -- uint64
  pub closed : Bool
  pub header_written : Bool

-- What the system answers during one call, and the time. A write that fails has let through a
-- part of the bytes.
pub record Io : Type 0 where
  pub directory_ok : Bool
  pub open_ok : Bool
  pub header_ok : Bool
  pub write_ok : Bool
  pub let_through : ℕ
  pub now_epoch : ℕ

unfoldable pub exists : Text → Disk → Bool
exists p [] = false
exists p ((q, bytes) ∷ d) = same_text q p || exists p d

-- `file_.open(path, trunc)`: an existing file loses its content.
unfoldable pub open_file : Text → Disk → Disk
open_file p [] = (p, []) ∷ []
open_file p ((q, bytes) ∷ d) = if same_text q p then (q, []) ∷ d else (q, bytes) ∷ open_file p d

-- `file_.write(data, len)` at the end of the open file
unfoldable pub append_file : Text → List ℕ → Disk → Disk
append_file p new [] = []
append_file p new ((q, bytes) ∷ d) =
    if same_text q p then (q, bytes ++ new) ∷ d else (q, bytes) ∷ append_file p new d

-- A write succeeds only on an open stream.
abbrev pub is_open : Option Text → Bool
is_open none = false
is_open (some p) = true

abbrev pub append_open : Option Text → List ℕ → Disk → Disk
append_open none new d = d
append_open (some p) new d = append_file p new d

-- `for (n = first; n < 100000; ++n)`, with the rounds left; `p` if every name is taken.
unfoldable pub first_free : ℕ → ℕ → Text → Text → Disk → Text
unfolding exists candidate
first_free zero n stem p d = p
first_free (suc rounds) n stem p d =
    let later = first_free rounds (n + 1) stem p d in
    if exists (candidate stem n) d then later else candidate stem n

unfoldable pub unique_path : ℕ → ℕ → Disk → Text
unfolding first_free make_path
unique_path run cycle d =
    let p = make_path run cycle in
    if exists p d then first_free 99999 1 (path_stem run cycle) p d else p

-- `openCycle`
unfoldable pub open_cycle : Bool → Io → Writer → Disk → Bool × Writer × Disk
open_cycle first_file io w d =
    if not io.directory_ok
    then (false, w, d)
    else (let path = unique_path w.cfg.run_number w.cycle d in
        if not io.open_ok
        then (false, record w { file = none }, d)
        else (let opened = record w { file = some path; file_bytes = 0; closed = false } in
            let empty = open_file path d in
            if first_file && w.cfg.write_header
            then (let header = bytes_of (build_xdaq_header w.board_defs io.now_epoch 0 0) in
                if io.header_ok
                then (
                  true,
                  record opened { file_bytes = length header; header_written = true },
                  append_file path header empty,
                )
                else (false, opened, append_file path (take io.let_through header) empty))
            else (true, opened, empty)))

unfoldable pub open_writer : Io → Writer → Disk → Bool × Writer × Disk
open_writer io w d =
    open_cycle true io
      (record w { cycle = 0; total_bytes = 0; total_buffers = 0; header_written = false }) d

-- The stream's write and the counts after it.
unfoldable pub put_block : Io → List ℕ → Writer → Disk → Bool × Writer × Disk
put_block io block w d =
    if io.write_ok && is_open w.file
    then (
      true,
      record w {
        file_bytes = u64 (w.file_bytes + length block);
        total_bytes = u64 (w.total_bytes + length block);
        total_buffers = u64 (w.total_buffers + 1);
      },
      append_open w.file block d,
    )
    else (false, w, append_open w.file (take io.let_through block) d)

-- The block would not fit in the open part any more.
abbrev pub must_rotate : Writer → List ℕ → Bool
must_rotate w block =
    not (w.cfg.max_file_bytes == 0)
    && ltb w.cfg.max_file_bytes (u64 (w.file_bytes + length block))
    && ltb 0 w.file_bytes

unfoldable pub write : Io → List ℕ → Writer → Disk → Bool × Writer × Disk
write io block w d =
    if w.closed
    then (false, w, d)
    else (if length block == 0
        then (true, w, d)
        else (if must_rotate w block
            then (let (opened, w', d') = open_cycle false io (record w { cycle = w.cycle + 1 }) d in
                if opened then put_block io block w' d' else (false, w', d'))
            else put_block io block w d))

-- The stream is flushed and closed; nothing is written after the payload.
unfoldable pub close : Writer → Writer
close w = if w.closed then w else record w { file = none; closed = true }

-- What is buffered goes to the system; `flushed`: the stream took it. The files stay as they are.
unfoldable pub flush : Bool → Writer → Bool
flush flushed w = w.closed || not (is_open w.file) || flushed
