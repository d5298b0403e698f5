-- ===== src/Tests/Commands.antt =====
-- The command line, and Daq's accesses to a board, at concrete inputs.
use caen_daq.Base.{ℕ, ◌*◌, ◌+◌, ◌≤◌, [], arith, false, inl, refl, some, true, ◌≡◌}
use caen_daq.Cli.Begin.{new_daq}
use caen_daq.Daq.Boards.{add_board, write_register_at}
use caen_daq.Tests.Sessions.{test_spec}
use caen_daq.Cli.Finish.{wait_rounds, wait_rounds-ends}
use caen_daq.Cli.{CliArgs, default_args, parse_args, settled}
use caen_daq.Cli.Arguments.{args_text, parse_args-args_text}
use caen_daq.Daq.Access.{read_register_at}
use caen_daq.Daq.Access.Registers.{accessed, reading, registers_at}
use caen_daq.Daq.Session.{Daq}
use caen_daq.MockDigitizer.{MockDigitizer, mock_digitizer}
use caen_daq.Base.Int.{pos, negsuc}
use caen_daq.Board.{codes, pha}
use caen_daq.Tests.{V1730}
use caen_daq.Tests.Devices.{mock}

-- A real board on an optical link
abbrev optical : CliArgs
optical = record default_args {
  run = 7;
  dir = codes "/data";
  dpp = pha;
  decode = true;
  write_head = false;
  mock = false;
  conn_type = pos 1;
  node = negsuc 0;
  vme_base = 0x32100000;
}

parse_args-args_text_example : parse_args (args_text optical) ≡ settled optical
parse_args-args_text_example = parse_args-args_text optical (record {
  run_ok = omega arith;
  size_ok = omega arith;
  seconds_ok = omega arith;
  rate_ok = omega arith;
  base_ok = omega arith;
  address_ok = (omega arith, omega arith, omega arith);
  firmware = inl refl;
  no_address = λ e. cc e;
})

-- Two simulated boards
abbrev with_mock : Daq MockDigitizer V1730
with_mock =
    (add_board test_spec (some mock)
      (add_board test_spec (some mock) (new_daq default_args [])).1).1

registers_at_example :
    (write_register_at (mock_digitizer 0) (pos 1) 5 9 with_mock
      ≡ accessed false ((mock_digitizer 0).write_register 5 9) (pos 1) with_mock)
    × (read_register_at (mock_digitizer 0) (pos 1) 5 0 with_mock ≡ (
        let r = accessed (false, 0) (reading (mock_digitizer 0) 5 0) (pos 1) with_mock in
        (r.0.0, r.0.1, r.1)))
registers_at_example = registers_at (mock_digitizer 0) (pos 1) 5 9 0 with_mock

-- Three seconds, no signal, rounds of 600 ms
wait_rounds-ends_example :
    (k : ℕ) × (wait_rounds (λ i. false) (λ j. 600 * (j + 1)) 3 (2 * 3) 0 ≡ some k) × (k ≤ 2 * 3)
wait_rounds-ends_example =
    wait_rounds-ends (λ i. false) (λ j. 600 * (j + 1)) 3 (omega arith) (λ j. omega arith)
