-- ===== src/Decoder/Events.antt =====
-- One event of a channel aggregate: the bodies of the event loops of decodePHA and decodePSD.
pub mod Bounds
use caen_daq.Base.{
  ℕ, ◌+◌, ◌-◌, ◌*◌, ◌/◌, ◌%◌, ◌^◌, Bool, false, ◌&&◌, ◌||◌, List, Result, ok, ◌>>=◌, read, take,
  leb, ◌==◌, if◌then◌else◌, bit_or,
}
use caen_daq.Base.Words.{u64, field, test_bit}
use caen_daq.Event.{DecodedEvent, no_event}
use caen_daq.Decoder.Frames.{FrameLib, DataLayout}
use caen_daq.Decoder.Clock.{unwrap, time_in_ps}
use caen_daq.Decoder.State.{BoardDec, Session, emit, count_incomplete}
use caen_daq.Decoder.Wave.{unpack_wave}

abbrev pub max_channels : ℕ
max_channels = 16

-- `a - b` on `uint32_t`
abbrev pub sub_u32 : ℕ → ℕ → ℕ
sub_u32 a b = (a + 2 ^ 32 - b) % 2 ^ 32

-- What the extra word says of an event.
pub record Extras : Type 0 where
  pub extended_ts : ℕ
  pub extended_bits : ℕ
  pub fine_ts : ℕ
  pub fine_bits : ℕ
  pub satu : Bool
  pub lost : Bool

abbrev pub no_extras : Extras
no_extras = record {
  extended_ts = 0;
  extended_bits = 0;
  fine_ts = 0;
  fine_bits = 0;
  satu = false;
  lost = false;
}

-- The extended and the fine time stamp, as both firmwares code them.
abbrev pub time_extras : DataLayout → ℕ → Extras
time_extras l w = record no_extras {
  extended_ts = if leb l.extras_mode 2 then w / 2 ^ 16 else 0;
  extended_bits = if leb l.extras_mode 2 then 16 else 0;
  fine_ts = if l.extras_mode == 2 then w % 2 ^ 10 else 0;
  fine_bits = if l.extras_mode == 2 then 10 else 0;
}

abbrev pub psd_extras : DataLayout → ℕ → Extras
psd_extras l w =
    if l.extras_config
    then record (time_extras l w) {
      satu = l.extras_mode == 1 && test_bit w 14;
      lost = l.extras_mode == 1 && test_bit w 12;
    }
    else record no_extras { extended_ts = w % 2 ^ 15; extended_bits = 15 }

-- `hasExtras ? buf[ev + evtSize - 1 - lastWords] : ...`
abbrev pub read_extras : List ℕ → DataLayout → ℕ → ℕ → (ℕ → Extras) → Result Extras
read_extras buf l ev last_words decode =
    if l.has_extras
    then (do w ← read buf (sub_u32 (sub_u32 (ev + l.evt_size) 1) last_words); ok (decode w))
    else ok no_extras

abbrev pub channel_of : DataLayout → ℕ → ℕ → ℕ
channel_of l time_word couple =
    if l.has_channel_bit then field time_word 31 1 + couple * 2 else couple

abbrev pub time_stamp : DataLayout → Extras → ℕ → ℕ
time_stamp l x raw =
    if x.extended_bits == 0 then raw else bit_or (u64 (x.extended_ts * 2 ^ l.ts_bits)) raw

-- `buf[ev]` and `buf[ev + evtSize - 1]`, where the layout has them, else 0
abbrev pub read_if : Bool → List ℕ → ℕ → Result ℕ
read_if present buf i = if present then read buf i else ok 0

module _ {Frame : Type 0} (lib : FrameLib Frame) where
  -- `setTime`: the board's clock moves on, and the event gets its time if the period is known.
  pub set_time : DecodedEvent → ℕ → Extras → BoardDec Frame → DecodedEvent × BoardDec Frame
  set_time e width x bd =
      let (ticks, clock) = unwrap bd.clock e.timestamp width in
      (
        if bd.ps_per_tick == 0
            then e
            else record e { time_ps = time_in_ps ticks bd.ps_per_tick x.fine_ts x.fine_bits },
        record bd { clock = clock },
      )

  -- The end of both loop bodies: the time, the trace, the callback.
  pub finish_event :
      List ℕ → DataLayout → ℕ → Extras → DecodedEvent → Session Frame → Result (Session Frame)
  unfolding set_time
  finish_event buf l ev x e s =
      let (timed, bd) =
        if l.has_ts then set_time e (l.ts_bits + x.extended_bits) x s.bd else (e, s.bd) in
      if l.has_trace
      then (do
        (n, wave) ← unpack_wave lib buf l (ev + (if l.has_ts then 1 else 0)) s.wave
        ok (emit (record s { bd = bd; wave = wave }) (record timed { wave = take n wave })))
      else ok (emit (record s { bd = bd }) timed)

  -- `if (!hasTS || !hasEnergy) ++incomplete_;`
  abbrev pub note_incomplete : Bool → Session Frame → Session Frame
  note_incomplete whole s = if whole then s else record s { counts = count_incomplete s.counts }

  unfoldable pub pha_event :
      List ℕ → DataLayout → ℕ → ℕ → ℕ → Session Frame → Result (Session Frame)
  unfolding finish_event
  pha_event buf l board couple ev s = do
    time_word ← read_if l.has_ts buf ev
    energy_word ← read_if l.has_energy buf (sub_u32 (ev + l.evt_size) 1)
    let counted = note_incomplete (l.has_ts && l.has_energy) s
    let channel = channel_of l time_word couple
    if leb max_channels channel then ok counted else (do
      x ← read_extras buf l ev (if l.has_energy then 1 else 0) (time_extras l)
      let flags = lib.extract_bits energy_word l.fmt_extras
      finish_event buf l ev x
          (record no_event {
            board = board % 2 ^ 16;
            channel = channel % 2 ^ 16;
            energy = energy_word % 2 ^ 15;
            pileup = test_bit energy_word 15;
            satu = test_bit flags 4 || test_bit flags 7;
            lost = test_bit flags 5;
            timestamp = time_stamp l x (lib.extract_bits time_word l.fmt_ts);
          })
          counted)

  unfoldable pub psd_event :
      List ℕ → DataLayout → ℕ → ℕ → ℕ → Session Frame → Result (Session Frame)
  unfolding finish_event
  psd_event buf l board couple ev s = do
    time_word ← read_if l.has_ts buf ev
    charge_word ← read_if l.has_charge buf (sub_u32 (ev + l.evt_size) 1)
    let counted = note_incomplete (l.has_ts && l.has_charge) s
    let channel = channel_of l time_word couple
    if leb max_channels channel then ok counted else (do
      x ← read_extras buf l ev (if l.has_charge then 1 else 0) (psd_extras l)
      finish_event buf l ev x
          (record no_event {
            board = board % 2 ^ 16;
            channel = channel % 2 ^ 16;
            qshort = charge_word % 2 ^ 15;
            qlong = charge_word / 2 ^ 16 % 2 ^ 16;
            pileup = test_bit charge_word 15;
            satu = x.satu;
            lost = x.lost;
            timestamp = time_stamp l x (lib.extract_bits time_word l.fmt_ts);
          })
          counted)
