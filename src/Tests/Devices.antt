-- ===== src/Tests/Devices.antt =====
-- Boards and the metrics client at concrete inputs.
use caen_daq.CaenDigitizer.Lifetime.{
  Owned, before_read-armed, configures, opens, run_ops, run_ops-closed, starts,
}
use caen_daq.CaenDigitizer.Operations.{start, drop_link, reconnect, resume, close, before_read}
use caen_daq.Base.{
  Returns, inl, length, ◌-◌, ◌<◌, ◌≤◌, ◌⊎◌, Bool, List, Option, [], arith, false, get_elem?,
  if◌then◌else◌, inr, none, ok, refl, some, take, true, ℕ, ◌++◌, ◌↔◌, ◌∷◌, ◌≡◌,
}
use caen_daq.CaenDigitizer.Recovery.{read_times, read_times-lost}
use caen_daq.Graphite.{
  is_positive, send, GraphiteClient, Sockets, close_fd, close_socket, new_client, note_failure,
}
use caen_daq.Graphite.Delivery.{Carries, SentPart, send-SentPart}
use caen_daq.MockDigitizer.{MockDigitizer, MockOptions, aggregate, new_mock}
use caen_daq.MockDigitizer.Aggregate.{aggregate-framed, stated_size}
use mathlib.Core.List.{append-nil}
use caen_daq.CaenDigitizer.{
  CaenDigitizer, Driver, Identity, activate, call, connected, fw_psd, has_buffer, has_driver,
  new_digitizer, no_info, read_identity, read_reg, refresh_board_info, start_mode,
}
use caen_daq.CaenDigitizer.Config.{
  DumpEntry, allocate_buffer, apply_config, apply_register_dump, free_at, free_only, load_config,
  release_buffer, configure,
}
use caen_daq.CaenDigitizer.Links.{link_mutexes, no_links}
use caen_daq.CaenDigitizer.Links.Sharing.{link_mutexes-shared}
use caen_daq.CaenDigitizer.Success.{Obeys, bring_up}
use caen_daq.Digitizer.{BoardParams}
use caen_daq.Graphite.Backoff.{DelayIn, note_failure-quiet, sends, sends-bounded}
use caen_daq.Base.Int.{pos, negsuc}
use caen_daq.Board.{codes, psd, Text}

abbrev params : BoardParams
params = record {
  name = codes "b0";
  conn_type = 0;
  link_num = 0;
  node = 0;
  vme_base = 0;
  config_path = [];
}

abbrev no_identity : Identity
no_identity = record {
  model_name = codes "V1730";
  model = 730;
  channels = 16;
  board_reg_id = 0;
  firmware = fw_psd;
  ns_per_sample = 2;
  ns_per_timetag = 8;
}

-- A driver whose state is whether the link is up; `reopens`: whether it can be opened.
abbrev driver : Bool → Driver Bool
driver reopens = record {
  fresh = false;
  activate = λ c l n b e v. (if reopens then e else negsuc 0, reopens);
  deactivate = λ e v. (e, false);
  is_active = λ v. v;
  identify = λ e v. (no_identity, e, v);
  read_register = λ a e v. (0, e, v);
  write_register = λ a x e v. (e, v);
  set_register_bits = λ a lo hi x e v. (e, v);
  configure_from_file = λ path e v. (e, v);
  malloc_buffer = λ e v. (some 4096, 1000, e, v);
  free_buffer = λ b e v. (e, v);
  clear_data = λ e v. (e, v);
  sw_start = λ e v. (e, v);
  sw_stop = λ e v. (e, v);
  send_sw_trigger = λ e v. (e, v);
  read_data = λ b e v. (1 ∷ 2 ∷ [], e, v);
}

abbrev no_dump : Text → Option (List DumpEntry)
no_dump path = none

-- An open board in a run, whose link is up or lost.
abbrev in_run : Bool → CaenDigitizer Bool
in_run up = record {
  params = params;
  dgtz = some up;
  info = no_info;
  readout_buffer = some 4096;
  buffer_size = 1000;
  errcode = pos 0;
  configured = true;
  running = true;
}

run_ops-closed_example :
    Owned (run_ops (driver true) no_dump (opens ∷ configures ∷ starts ∷ []) (new_digitizer params))
    × (has_driver (
          close (driver true) (
            run_ops
              (driver true)
              no_dump
              (opens ∷ configures ∷ starts ∷ [])
              (new_digitizer params)))
        ≡ false)
    × ((close (driver true) (
          run_ops
            (driver true)
            no_dump
            (opens ∷ configures ∷ starts ∷ [])
            (new_digitizer params))).readout_buffer
        ≡ none)
run_ops-closed_example =
    run_ops-closed (driver true) no_dump params (opens ∷ configures ∷ starts ∷ [])

-- A lost link that can be opened again.
before_read-armed_example :
    (has_driver (before_read (driver true) no_dump (in_run false)).1 ≡ true)
    × (has_buffer (before_read (driver true) no_dump (in_run false)).1 ≡ true)
unfolding before_read reconnect connected activate drop_link free_only free_at call
    refresh_board_info read_reg read_identity apply_config load_config apply_register_dump
    release_buffer allocate_buffer resume start_mode
before_read-armed_example = before_read-armed (driver true) no_dump (in_run false) refl

read_times-lost_example :
    read_times (driver false) no_dump 3 (in_run false)
    ≡ (none ∷ none ∷ none ∷ [], (reconnect (driver false) no_dump (in_run false)).1)
unfolding connected activate drop_link free_only free_at call
read_times-lost_example =
    read_times-lost (driver false) no_dump 2 (in_run false) refl refl refl refl

driver-Obeys : Obeys (driver true)
driver-Obeys = record {
  activates = λ c l n b e v. refl;
  active = λ c l n b e v. refl;
  configures = λ path e v. refl;
  gives = λ e v. refl;
  gives_quietly = λ e v. refl;
  clears = λ e v. refl;
  starts = λ e v. refl;
}

abbrev opened : Bool × CaenDigitizer Bool
opened = activate (driver true) (new_digitizer params)

abbrev set_up : Bool × CaenDigitizer Bool
set_up = configure (driver true) no_dump opened.1

bring_up_example :
    (opened.0 ≡ true)
    × (set_up.0 ≡ true)
    × ((start (driver true) set_up.1).0 ≡ true)
    × ((start (driver true) set_up.1).1.running ≡ true)
    × (has_buffer (start (driver true) set_up.1).1 ≡ true)
bring_up_example = bring_up (driver true) no_dump (new_digitizer params) driver-Obeys

-- Two boards behind one bridge, and one behind another.
abbrev bridge : ℕ × ℕ
bridge = (0, 0)

abbrev three_links : List (ℕ × ℕ)
three_links = bridge ∷ (1, 0) ∷ bridge ∷ []

link_mutexes-shared_example :
    (m m' : ℕ) × (get_elem? (link_mutexes three_links no_links).0 0 ≡ some m)
    × (get_elem? (link_mutexes three_links no_links).0 2 ≡ some m')
    × ((m ≡ m') ↔ (bridge ≡ bridge))
link_mutexes-shared_example = link_mutexes-shared three_links 0 2 bridge bridge refl refl

-- A system whose state is the clock and what was sent; it takes one byte at a time.
abbrev pub sockets : Sockets (ℕ × List ℕ)
sockets = record {
  now = λ w. w.0;
  resolve = λ host port w. (some 9, w);
  socket = λ address w. (some 3, w);
  set_non_blocking = λ s on w. (true, w);
  connect = λ s address w. (some true, w);
  wait_writable = λ s ms w. (pos 1, w);
  socket_error = λ s w. ((true, 0), w);
  set_options = λ s ms w. w;
  send = λ s bytes w. (pos (length (take 1 bytes)), (w.0, w.1 ++ take 1 bytes));
  close = λ s w. w;
}

abbrev client : GraphiteClient
client = record (new_client (codes "h") (pos 2003) (pos 0) (pos 0)) {
  fd = some 3;
  retry_delay = 1000;
}

sends-bounded_example : DelayIn sockets (
    sends sockets
      ((1 ∷ 2 ∷ []) ∷ [])
      (true, new_client (codes "h") (pos 2003) (pos 0) (pos 0), (0, [])))
sends-bounded_example =
    sends-bounded sockets (codes "h") (pos 2003) (pos 0) (pos 0) ((1 ∷ 2 ∷ []) ∷ []) (0, [])

-- The failure at 100 ms doubles a delay of 1000 ms; at 2000 ms the client is still quiet.
note_failure-quiet_example :
    send sockets (1 ∷ []) (note_failure sockets client (100, [])).0 (2000, [])
    ≡ ok (false, (note_failure sockets client (100, [])).0, (2000, []))
unfolding note_failure close_socket close_fd new_client
note_failure-quiet_example =
    note_failure-quiet sockets (1 ∷ []) client (100, []) (2000, []) (inr (omega arith, omega arith))
      refl (omega arith) (omega arith)

sockets-Carries : Carries sockets (λ w. w.1)
sockets-Carries = record { sends = takes_one; closes = λ s w. refl }
  where
    takes_one :
        (s : ℕ) (bytes : List ℕ) (w : ℕ × List ℕ)
        → ((is_positive (sockets.send s bytes w).0 ≡ false) × ((sockets.send s bytes w).1.1 ≡ w.1))
          ⊎ ((n : ℕ) × ((sockets.send s bytes w).0 ≡ pos n)
              × (0 < n)
              × (n ≤ length bytes)
              × ((sockets.send s bytes w).1.1 ≡ w.1 ++ take n bytes))
    takes_one s [] w = inl (refl, append-nil w.1)
    takes_one s (b ∷ bytes) w = inr (1, refl, omega arith, omega arith, refl)

send-SentPart_example :
    Returns
      (SentPart sockets (λ w. w.1) sockets-Carries (1 ∷ 2 ∷ []) (0, []))
      (send sockets (1 ∷ 2 ∷ []) client (0, []))
unfolding new_client
send-SentPart_example =
    send-SentPart sockets (λ w. w.1) sockets-Carries 3 (1 ∷ 2 ∷ []) client (0, []) refl refl
      (omega arith)

abbrev mock_options : MockOptions
mock_options = record {
  rate_per_sec = 200;
  waveforms = true;
  trace_samples = 32;
  fail_every = 0;
  dpp = psd;
  board_id = 3;
  start_mode = 0;
}

abbrev pub mock : MockDigitizer
mock = record (new_mock params mock_options) { is_open = true }

aggregate-framed_example :
    (length (aggregate mock).0 ≡ stated_size (aggregate mock).0)
    × (get_elem? (aggregate mock).0 4 ≡ some (length (aggregate mock).0 - 4))
unfolding new_mock
aggregate-framed_example = aggregate-framed mock (omega arith)
