-- ===== src/Daq/Running/Saved.antt =====
-- What becomes of the buffers in any interleaving of the readers and the writer.
use caen_daq.Daq.Running.{
  drain_round, halted, released, drains, flushes, halts, here, reads, releases, resumes, takes,
  then_step, tunes, after_take, loop_of, reader_round, resumed, with_loop, Live, RunReach, RunStep,
  after_reader, lent, Dispatched,
}
use caen_daq.Daq.Running.Flow.{
  drain_round-Moved, reader_round-Moved, resume-Moved, Moved, flat, flat-append, queued-append,
  queued-flat, total-append, written-append, written_of,
}
use caen_daq.Base.{
  Bool, Option, if◌then◌else◌, refl, subst, [], ap, arith, false, inl, inr, length, map, none, some,
  sym, true, ℕ, ◌++◌, ◌+◌, ◌<◌, ◌^◌, ◌∙◌, ◌∷◌, ◌≡◌, ◌⊎◌, List,
}
use caen_daq.Daq.WriterLoop.{LoopState, flush_if, put_popped}
use caen_daq.Daq.WriterLoop.Bytes.{put_popped-Put, bytes_in}
use caen_daq.Queue.{pop_front, BlockPtr, BlockQueue, pop}
use caen_daq.Writer.{Io, Writer}
use caen_daq.Base.Words.{u64}
use caen_daq.BoardRunner.Fanout.{total}
use caen_daq.BoardRunner.Lifecycle.{Board}
use caen_daq.Daq.Session.{Daq}
use caen_daq.Digitizer.{Digitizer}
use caen_daq.Writer.Layout.{Owns, all_bytes}
use mathlib.Core.List.{append_assoc, append-nil}
use caen_daq.Daq.Session.Files.{queued_bytes}

pop_front-cases :
    (items : List BlockPtr) (q : BlockQueue)
    → ((items ≡ []) × (pop_front items q ≡ (none, q)))
      ⊎ ((b : BlockPtr) × (rest : List BlockPtr) × (items ≡ b ∷ rest)
          × (pop_front items q ≡ (some b, record q { items = rest })))
pop_front-cases [] q = inl (refl, refl)
pop_front-cases (b ∷ rest) q = inr (b, rest, refl, refl)

-- What the writer's thread gets: nothing, or the front.
pop-queued :
    (q : BlockQueue) → queued_bytes q.items ≡ bytes_in (pop q).0 ++ queued_bytes (pop q).1.items
unfolding pop
pop-queued q = elim (pop_front-cases q.items q) [
  | inl (empty, e) ↦ rw e refl
  | inr (b, rest, items, e) ↦ rw (e, items) refl
]

abbrev pub go_live : {D Frame : Type 0} → Daq D Frame → Live D Frame
go_live d = record { daq = d; dirty = false; waiting = λ i. none; accepted = [] }

module _ {D Frame : Type 0} (ops : Digitizer D) where
  -- There are fewer than 99999 files, and the block is below 2^64 bytes.
  unfoldable pub FewStep : {l t : Live D Frame} → RunStep ops l t → Type 0
  FewStep {l} (takes io due w up has sound ready) =
      (length l.daq.disk < 99999) × (length (bytes_in (pop l.daq.write_queue).0) < 2 ^ 64)
  FewStep (reads before after b e up idle) = Unit
  FewStep (resumes before after b bytes e held) = Unit
  FewStep (flushes empty) = Unit
  FewStep (tunes before after b address value e) = Unit
  FewStep (halts before after b e first on) = Unit
  FewStep (drains before after b e off up idle) = Unit
  FewStep (releases before after b e off up idle) = Unit

  unfoldable pub FewAlong : {l t : Live D Frame} → RunReach ops l t → Type 0
  FewAlong here = Unit
  FewAlong (then_step path s) = FewAlong path × FewStep s

module _ {D Frame : Type 0} where
  -- The buffers that the queue accepted are in the files and behind them in the queue.
  pub record Filed (d : Daq D Frame) (l : Live D Frame) : Type 0 where
    pub w : Writer
    pub has : l.daq.writer ≡ some w
    pub owns : Owns w l.daq.disk
    pub grew :
        all_bytes l.daq.disk ++ queued_bytes l.daq.write_queue.items
        ≡ (all_bytes d.disk ++ queued_bytes d.write_queue.items) ++ flat l.accepted

  pub record Saved (d : Daq D Frame) (l : Live D Frame) : Type 0 where
    pub counted : u64 (written_of l.daq.boards) ≡ u64 (written_of d.boards + total l.accepted)
    pub files : (l.daq.writer_failed ≡ true) ⊎ Filed d l

  pub queue-Filed :
      (d : Daq D Frame) (l : Live D Frame) (taken : List (List ℕ)) (items : List BlockPtr)
      → items ≡ l.daq.write_queue.items ++ map (λ x. some x) taken
      → all_bytes l.daq.disk ++ queued_bytes l.daq.write_queue.items
        ≡ (all_bytes d.disk ++ queued_bytes d.write_queue.items) ++ flat l.accepted
      → all_bytes l.daq.disk ++ queued_bytes items
        ≡ (all_bytes d.disk ++ queued_bytes d.write_queue.items) ++ flat (l.accepted ++ taken)
  queue-Filed d l taken items e grew =
      let base = all_bytes d.disk ++ queued_bytes d.write_queue.items in
      let old = queued_bytes l.daq.write_queue.items in
      ap (λ (q : List BlockPtr). all_bytes l.daq.disk ++ queued_bytes q) e
      ∙ ap (λ t. all_bytes l.daq.disk ++ t)
          (queued-append l.daq.write_queue.items (map (λ x. some x) taken)
            ∙ ap (λ t. old ++ t) (queued-flat taken))
      ∙ sym (append_assoc (all_bytes l.daq.disk) old (flat taken))
      ∙ ap (λ t. t ++ flat taken) grew
      ∙ append_assoc base (flat l.accepted) (flat taken)
      ∙ ap (λ t. base ++ t) (sym (flat-append l.accepted taken))

  reader-Saved :
      (d : Daq D Frame) (l : Live D Frame) (before after : List (Board D Frame)) (b : Board D Frame)
      (o : Dispatched (Board D Frame))
      → l.daq.boards ≡ before ++ b ∷ after
      → Moved o.1 (lent l.daq b).runner o.2.runner
      → Saved d l
      → Saved d (after_reader before o after l)
  reader-Saved d l before after b (waiting, taken, b') e m s = record {
    counted = omega (
      arith,
      s.counted,
      ap written_of e,
      written-append before (b ∷ after),
      written-append before (b' ∷ after),
      total-append l.accepted taken,
      m.written,
    );
    files = elim s.files [
      | inl bad ↦ inl bad
      | inr f ↦ inr (record {
        w = f.w;
        has = f.has;
        owns = f.owns;
        grew = queue-Filed d l taken b'.runner.write_queue.items m.queued f.grew;
      })
    ];
  }

  -- A step that touches a board alone, but for its counters and its queue
  board-Saved :
      (d : Daq D Frame) (l : Live D Frame) (before after : List (Board D Frame))
      (b b' : Board D Frame)
      → l.daq.boards ≡ before ++ b ∷ after
      → b'.runner.counts.bytes_written ≡ b.runner.counts.bytes_written
      → Saved d l
      → Saved d (record l { daq = record l.daq { boards = before ++ b' ∷ after } })
  board-Saved d l before after b b' e same s = record {
    counted = omega (
      arith,
      s.counted,
      same,
      ap written_of e,
      written-append before (b ∷ after),
      written-append before (b' ∷ after),
    );
    files = elim s.files [
      | inl bad ↦ inl bad
      | inr f ↦ inr (record { w = f.w; has = f.has; owns = f.owns; grew = f.grew })
    ];
  }

  take-Filed :
      (d : Daq D Frame) (l : Live D Frame) (q : BlockQueue) (s : LoopState)
      (block : Option BlockPtr)
      → queued_bytes l.daq.write_queue.items ≡ bytes_in block ++ queued_bytes q.items
      → Owns s.writer s.disk
      → all_bytes s.disk ≡ all_bytes l.daq.disk ++ bytes_in block
      → Filed d l
      → Filed d (with_loop q s l)
  take-Filed d l q s block split owns wrote f = record {
    w = s.writer;
    has = refl;
    owns = owns;
    grew =
        ap (λ t. t ++ queued_bytes q.items) wrote
        ∙ append_assoc (all_bytes l.daq.disk) (bytes_in block) (queued_bytes q.items)
        ∙ ap (λ t. all_bytes l.daq.disk ++ t) (sym split)
        ∙ f.grew;
  }

  after_take-ends :
      (io : Io) (due : Bool) (w : Writer) (l : Live D Frame) (goes_on : Bool)
      → (put_popped io (pop l.daq.write_queue).0 (loop_of w l)).0 ≡ goes_on
      → after_take io due w l
        ≡ with_loop
            (pop l.daq.write_queue).1
            (if goes_on
              then flush_if due (put_popped io (pop l.daq.write_queue).0 (loop_of w l)).1
              else (put_popped io (pop l.daq.write_queue).0 (loop_of w l)).1)
            l
  unfolding after_take
  after_take-ends io due w l goes_on e =
      let p = put_popped io (pop l.daq.write_queue).0 (loop_of w l) in
      ap (λ (c : Bool). with_loop (pop l.daq.write_queue).1 (if c then flush_if due p.1 else p.1) l)
        e

  take-Saved :
      (d : Daq D Frame) (io : Io) (due : Bool) (w : Writer) (l : Live D Frame)
      → l.daq.writer ≡ some w
      → l.daq.writer_failed ≡ false
      → length l.daq.disk < 99999
      → length (bytes_in (pop l.daq.write_queue).0) < 2 ^ 64
      → Saved d l
      → Saved d (after_take io due w l)
  take-Saved d io due w l has sound few small s = elim s.files [
    | inl bad ↦ cc (bad, sound)
    | inr f ↦
        let p = put_popped io (pop l.daq.write_queue).0 (loop_of w l) in
        let mine = subst (λ (v : Writer). Owns v l.daq.disk) (cc (f.has, has)) f.owns in
        elim (put_popped-Put io (pop l.daq.write_queue).0 (loop_of w l) mine few small) [
          | inl (on, put) ↦ subst (Saved d) (sym (after_take-ends io due w l true on)) (record {
            counted = s.counted;
            files = inr (
                take-Filed d l (pop l.daq.write_queue).1 (flush_if due p.1)
                  (pop l.daq.write_queue).0 (pop-queued l.daq.write_queue) put.owns put.grew f);
          })
          | inr (off, failed) ↦
              subst (Saved d) (sym (after_take-ends io due w l false off))
                (record { counted = s.counted; files = inl failed })
        ]
  ]

module _ {D Frame : Type 0} (ops : Digitizer D) where
  pub RunStep-Saved :
      (d : Daq D Frame) {l t : Live D Frame} (s : RunStep ops l t)
      → FewStep ops s
      → Saved d l
      → Saved d t
  unfolding FewStep
  RunStep-Saved d {l} (reads before after b e up idle) few s =
      reader-Saved d l before after b (reader_round ops l.daq.writer_failed (lent l.daq b)) e
        (reader_round-Moved ops l.daq.writer_failed (lent l.daq b)) s
  RunStep-Saved d {l} (resumes before after b bytes e held) few s =
      reader-Saved d l before after b (resumed ops bytes (lent l.daq b)) e
        (resume-Moved bytes (lent l.daq b).runner) s
  RunStep-Saved d {l} (takes io due w up has sound ready) few s =
      take-Saved d io due w l has sound few.0 few.1 s
  RunStep-Saved d (flushes empty) few s = record {
    counted = s.counted;
    files = elim s.files [
      | inl bad ↦ inl bad
      | inr f ↦ inr (record { w = f.w; has = f.has; owns = f.owns; grew = f.grew })
    ];
  }
  RunStep-Saved d {l} (tunes before after b address value e) few s =
      board-Saved d l before after b (record b { dev = (ops.write_register address value b.dev).1 })
        e refl s
  RunStep-Saved d {l} (halts before after b e first on) few s =
      board-Saved d l before after b (halted ops b) e refl s
  RunStep-Saved d {l} (drains before after b e off up idle) few s =
      reader-Saved d l before after b (drain_round ops (lent l.daq b)) e
        (drain_round-Moved ops (lent l.daq b)) s
  RunStep-Saved d {l} (releases before after b e off up idle) few s =
      board-Saved d l before after b (released ops b) e refl s

  pub RunReach-Saved :
      (d : Daq D Frame) (w : Writer)
      → d.writer ≡ some w
      → Owns w d.disk
      → {l : Live D Frame} (path : RunReach ops (go_live d) l) → FewAlong ops path
      → Saved d l
  unfolding FewAlong
  RunReach-Saved d w has owns here few = record {
    counted = omega arith;
    files = inr (record {
      w = w;
      has = has;
      owns = owns;
      grew = sym (append-nil (all_bytes d.disk ++ queued_bytes d.write_queue.items));
    });
  }
  RunReach-Saved d w has owns (then_step path s) few =
      RunStep-Saved d s few.1 (RunReach-Saved d w has owns path few.0)
