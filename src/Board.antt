-- ===== src/Board.antt =====
-- include/caendaq/BoardInfo.hpp: what a board is. Text is the list of its character codes.
use caen_daq.Base.{ℕ, Bool, true, false, ◌&&◌, ◌||◌, List, [], ◌∷◌, ◌==◌}
use Prim.Native.String.{String}
use Prim.Native.Char.{code}

abbrev pub Text : Type 0
Text = List ℕ

-- The character codes of a literal.
abbrev pub codes : String → Text
codes String.[] = []
codes (String.◌∷◌ c s) = code c ∷ codes s

abbrev pub starts_with : Text → Text → Bool
starts_with [] t = true
starts_with (p ∷ ps) [] = false
starts_with (p ∷ ps) (c ∷ t) = p == c && starts_with ps t

-- `t.find(p) != std::string::npos`
unfoldable pub contains : Text → Text → Bool
contains p [] = starts_with p []
contains p (c ∷ t) = starts_with p (c ∷ t) || contains p t

pub data DppType : Type 0 where
  not_dpp std pha psd ci zle qdc daw : DppType

pub data SyncRole : Type 0 where
  independent master slave : SyncRole

-- The identity and geometry that the rest of the program reads. The firmware strings, the
-- licence and the other fields that are only reported are left out.
pub record BoardInfo : Type 0 where
  pub model_name : Text
  pub model : ℕ
  pub channels : ℕ
  pub board_reg_id : ℕ
  pub dpp_type : DppType
  pub ns_per_sample : ℕ  -- uint8
  pub ns_per_timetag : ℕ  -- uint8
  pub acquisition_control : ℕ
  pub sync_role : SyncRole
