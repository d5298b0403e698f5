-- ===== src/CaenDigitizer.antt =====
-- src/CaenDigitizer.cpp: a real board. The vendor's driver is a parameter.
pub mod Config
pub mod Operations
pub mod Links
pub mod Ownership
pub mod Driven
pub mod Lifetime
pub mod Recovery
pub mod Success
use caen_daq.Base.{
  is_some, Bool, List, Option, [], false, if◌then◌else◌, none, not, some, true, ℕ, ◌%◌, ◌==◌, ◌||◌,
}
use caen_daq.Board.{pha, psd, BoardInfo, DppType, ci, daw, not_dpp, qdc, std, zle, SyncRole, Text}
use caen_daq.Digitizer.{BoardParams, start_mode_sw}
use caen_daq.Base.Int.{ℤ, pos, negsuc}

-- What the driver's getters give: `GetInfo`, `GetNumChannels`, `GetModel`, `GetDPPVersion`,
-- `GetNsPerSample`, `GetNsPerTimetag`, `GetBoardRegID`. The fields that are only reported are
-- left out.
pub data Firmware : Type 0 where
  fw_none fw_pha fw_psd fw_ci fw_zle fw_qdc fw_daw : Firmware

pub record Identity : Type 0 where
  pub model_name : Text
  pub model : ℕ
  pub channels : ℕ
  pub board_reg_id : ℕ
  pub firmware : Firmware
  pub ns_per_sample : ℕ
  pub ns_per_timetag : ℕ

-- A call of the driver: it is given the shared error code, which it sets on an error only.
abbrev pub Call : Type 0 → Type 0
Call V = ℤ → V → ℤ × V

-- The members of `CAENDgtz` that are called. A buffer is an address, or null.
pub record Driver (V : Type 0) : Type 0 where
  pub fresh : V
  pub activate : ℕ → ℕ → ℕ → ℕ → Call V
  pub deactivate : Call V
  pub is_active : V → Bool
  pub identify : ℤ → V → Identity × ℤ × V
  pub read_register : ℕ → ℤ → V → ℕ × ℤ × V
  pub write_register : ℕ → ℕ → Call V
  pub set_register_bits : ℕ → ℕ → ℕ → ℕ → Call V
  pub configure_from_file : Text → Call V
  pub malloc_buffer : ℤ → V → Option ℕ × ℕ × ℤ × V
  pub free_buffer : ℕ → Call V
  pub clear_data : Call V
  pub sw_start : Call V
  pub sw_stop : Call V
  pub send_sw_trigger : Call V
  pub read_data : Option ℕ → ℤ → V → List ℕ × ℤ × V

pub record CaenDigitizer (V : Type 0) : Type 0 where
  pub params : BoardParams
  pub dgtz : Option V
  pub info : BoardInfo
  pub readout_buffer : Option ℕ
  pub buffer_size : ℕ
  pub errcode : ℤ
  pub configured : Bool
  pub running : Bool

abbrev pub reg_board_configuration : ℕ
reg_board_configuration = 0x8000

abbrev pub reg_acquisition_control : ℕ
reg_acquisition_control = 0x8100

abbrev pub reg_global_trigger_mask : ℕ
reg_global_trigger_mask = 0x810C

abbrev pub reg_trg_out_enable_mask : ℕ
reg_trg_out_enable_mask = 0x8110

abbrev pub reg_front_panel_io_ctrl : ℕ
reg_front_panel_io_ctrl = 0x811C

abbrev pub reg_run_delay : ℕ
reg_run_delay = 0x8170

abbrev pub map_dpp : Firmware → DppType
map_dpp fw_pha = pha
map_dpp fw_psd = psd
map_dpp fw_ci = ci
map_dpp fw_zle = zle
map_dpp fw_qdc = qdc
map_dpp fw_daw = daw
map_dpp fw_none = std

-- `errcode_ != 0`
abbrev pub is_fault : ℤ → Bool
is_fault (pos n) = not (n == 0)
is_fault (negsuc n) = true

-- A default `BoardInfo`.
abbrev pub no_info : BoardInfo
no_info = record {
  model_name = [];
  model = 0;
  channels = 0;
  board_reg_id = 0;
  dpp_type = not_dpp;
  ns_per_sample = 0;
  ns_per_timetag = 0;
  acquisition_control = 0;
  sync_role = SyncRole.independent;
}

unfoldable pub new_digitizer : {V : Type 0} → BoardParams → CaenDigitizer V
new_digitizer params = record {
  params = params;
  dgtz = none;
  info = no_info;
  readout_buffer = none;
  buffer_size = 0;
  errcode = pos 0;
  configured = false;
  running = false;
}

-- `errcode_ = 0;`
abbrev pub clear_error : {V : Type 0} → CaenDigitizer V → CaenDigitizer V
clear_error s = record s { errcode = pos 0 }

abbrev pub has_driver : {V : Type 0} → CaenDigitizer V → Bool
has_driver s = is_some s.dgtz

abbrev pub has_buffer : {V : Type 0} → CaenDigitizer V → Bool
has_buffer s = is_some s.readout_buffer

-- A call through the pointer to the driver, which is tested before.
unfoldable pub call : {V : Type 0} → Call V → CaenDigitizer V → CaenDigitizer V
call f s = elim s.dgtz [
  | none ↦ s
  | some v ↦ let (e, v') = f s.errcode v in record s { errcode = e; dgtz = some v' }
]

module _ {V : Type 0} (drv : Driver V) where
  unfoldable pub connected : CaenDigitizer V → Bool
  connected s = elim s.dgtz [ none ↦ false | some v ↦ drv.is_active v ]

  -- `readReg`: a register that cannot be read is 0, and the error is forgotten.
  unfoldable pub read_reg : ℕ → CaenDigitizer V → ℕ × CaenDigitizer V
  read_reg addr s = elim s.dgtz [
    | none ↦ (0, s)
    | some v ↦
        let (value, e, v') = drv.read_register addr (pos 0) v in
        (if is_fault e then 0 else value, record s { errcode = pos 0; dgtz = some v' })
  ]

  -- The getters.
  unfoldable pub read_identity : CaenDigitizer V → CaenDigitizer V
  read_identity s = elim s.dgtz [
    | none ↦ s
    | some v ↦
        let (i, e, v') = drv.identify s.errcode v in
        record s {
          errcode = e;
          dgtz = some v';
          info = record s.info {
            model_name = i.model_name;
            model = i.model;
            channels = i.channels;
            board_reg_id = i.board_reg_id;
            dpp_type = map_dpp i.firmware;
            ns_per_sample = i.ns_per_sample;
            ns_per_timetag = i.ns_per_timetag;
          };
        }
  ]

  -- Six registers are read; of their values only that of the first is kept here.
  unfoldable pub refresh_board_info : CaenDigitizer V → CaenDigitizer V
  unfolding read_reg read_identity
  refresh_board_info s =
      let (acq, s1) = read_reg reg_acquisition_control (read_identity s) in
      let s2 = (read_reg reg_board_configuration s1).1 in
      let s3 = (read_reg reg_front_panel_io_ctrl s2).1 in
      let s4 = (read_reg reg_global_trigger_mask s3).1 in
      let s5 = (read_reg reg_trg_out_enable_mask s4).1 in
      let s6 = (read_reg reg_run_delay s5).1 in
      if has_driver s then record s6 { info = record s6.info { acquisition_control = acq } } else s

  -- `if (!dgtz_) dgtz_ = std::make_unique<CAENDgtz>();`
  abbrev pub make_driver : CaenDigitizer V → CaenDigitizer V
  make_driver s = elim s.dgtz [ none ↦ record s { dgtz = some drv.fresh } | some v ↦ s ]

  unfoldable pub activate : CaenDigitizer V → Bool × CaenDigitizer V
  unfolding connected refresh_board_info call
  activate s =
      let p = s.params in
      let opened =
        call (drv.activate p.conn_type p.link_num p.node p.vme_base)
          (clear_error (make_driver s)) in
      if is_fault opened.errcode || not (connected opened)
      then (false, opened)
      else (true, refresh_board_info opened)

-- `info_.acquisitionControl & 0x3u`
unfoldable pub start_mode : {V : Type 0} → CaenDigitizer V → ℕ
start_mode s = s.info.acquisition_control % 4

abbrev pub is_synchronised : {V : Type 0} → CaenDigitizer V → Bool
is_synchronised s = not (start_mode s == start_mode_sw)
