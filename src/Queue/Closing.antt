-- ===== src/Queue/Closing.antt =====
-- A queue that is closed accepts nothing more.
use caen_daq.Base.{List, [], arith, refl, true, ◌∷◌, ◌≡◌}
use caen_daq.Queue.{BlockPtr, pop, push_enter, push_wake, close}
use caen_daq.Queue.Schedule.{Run, Step, after_pop, enter, shut, take_one, time_out, wake}

pop_keeps :
    (items : List BlockPtr) (r : Run)
    → r.queue.items ≡ items
    → r.queue.closed ≡ true
    → ((after_pop r).accepted ≡ r.accepted) × ((after_pop r).queue.closed ≡ true)
unfolding pop
pop_keeps [] r e h = ground arith
pop_keeps (b ∷ rest) r e h = ground arith

-- Whatever step is taken from a closed queue, no block is accepted and the queue stays closed.
pub closed_accepts_none :
    {r t : Run}
    → Step r t
    → r.queue.closed ≡ true
    → (t.accepted ≡ r.accepted) × (t.queue.closed ≡ true)
unfolding push_enter push_wake pop close
closed_accepts_none (enter b) h = ground arith
closed_accepts_none (wake b before after e) h = ground arith
closed_accepts_none {r} (take_one ready) h = pop_keeps r.queue.items r refl h
closed_accepts_none (time_out ready) h = (refl, h)
closed_accepts_none shut h = (refl, refl)
