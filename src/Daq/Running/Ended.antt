-- ===== src/Daq/Running/Ended.antt =====
-- A whole run and its stop, as the files and the counters show it.
use caen_daq.Base.{subst, sym, All, ap, inl, inr, some, false, ◌++◌, ◌+◌, ◌∙◌, ◌≡◌, List}
use caen_daq.Base.Words.{u64}
use caen_daq.BoardRunner.Fanout.{total}
use caen_daq.BoardRunner.Lifecycle.{Board}
use caen_daq.Daq.Running.{IsReleased, Live, RunReach, finish_stop}
use caen_daq.Daq.Running.Flow.{flat, written_of}
use caen_daq.Daq.Running.Saved.{FewAlong, RunReach-Saved, go_live}
use caen_daq.Daq.Session.{Daq, Env, teardown_with, teardown_writer}
use caen_daq.Daq.Session.Endings.{teardown-boards}
use caen_daq.Daq.Session.Files.{CanFinish, queued_bytes, teardown-written}
use caen_daq.Digitizer.{Digitizer}
use caen_daq.Writer.{Writer}
use caen_daq.Writer.Layout.{Owns, all_bytes}

-- What the end of the stop leaves of a run that began as `d` and came to `l`.
pub record RunSaved {D Frame : Type 0} (env : Env) (d : Daq D Frame) (l : Live D Frame)
    : Type 0 where
  pub files :
      all_bytes (finish_stop env l.daq).disk
      ≡ (all_bytes d.disk ++ queued_bytes d.write_queue.items) ++ flat l.accepted
  pub counted :
      u64 (written_of (finish_stop env l.daq).boards) ≡ u64 (written_of d.boards + total l.accepted)
  pub sound : (finish_stop env l.daq).writer_failed ≡ false
  pub ended : All IsReleased (finish_stop env l.daq).boards

module _ {D Frame : Type 0} (ops : Digitizer D) where
  finish-written :
      (env : Env) (v : Writer) (d : Daq D Frame)
      → d.writer ≡ some v
      → CanFinish env v d
      → (all_bytes (finish_stop env d).disk ≡ all_bytes d.disk ++ queued_bytes d.write_queue.items)
        × ((finish_stop env d).writer_failed ≡ false)
        × ((finish_stop env d).boards ≡ d.boards)
  unfolding teardown_writer
  finish-written env v d has can =
      let t = teardown-written env v d can in
      let e = ap (λ o. teardown_with env o d) has in
      (
        ap (λ (r : Daq D Frame). all_bytes r.disk) e ∙ t.0,
        ap (λ (r : Daq D Frame). r.writer_failed) e ∙ t.1,
        (teardown-boards ops env d.writer d).0,
      )

  -- For every interleaving of the readers, the writer, the operator and the stop, which goes from
  -- board to board while the others go on, up to the end of the stop, when every board is
  -- released: the files hold what they held, then what stood in the queue, then the buffers that
  -- the queue accepted, in their order; the bytes that the boards count as written have grown by
  -- the size of these, modulo 2^64; no failure of the writer is reported. At the start the open
  -- part is the last file and its size is counted; whenever a block is taken there are fewer than
  -- 99999 files and the block is below 2^64 bytes; at the end the writer can finish: its thread is
  -- up and did not fail, the file is open and the last one, and the system does its part.
  pub RunReach-finish_stop :
      (env : Env) (d : Daq D Frame) (w : Writer)
      → d.writer ≡ some w
      → Owns w d.disk
      → {l : Live D Frame} (path : RunReach ops (go_live d) l) → FewAlong ops path
      → All IsReleased l.daq.boards
      → (v : Writer) → l.daq.writer ≡ some v
      → CanFinish env v l.daq
      → RunSaved env d l
  RunReach-finish_stop env d w has owns {l} path few over v still can =
      let s = RunReach-Saved ops d w has owns path few in
      let (files, sound, same) = finish-written env v l.daq still can in
      elim s.files [
        | inl bad ↦ cc (bad, can.sound)
        | inr f ↦ record {
          files = files ∙ f.grew;
          counted = ap (λ (bs : List (Board D Frame)). u64 (written_of bs)) same ∙ s.counted;
          sound = sound;
          ended = subst (All IsReleased) (sym same) over;
        }
      ]
