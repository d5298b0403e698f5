-- ===== src/DecodeStage/Survival.antt =====
-- Whatever the board sends, the decode thread goes on.
use caen_daq.Base.{All, List, Returns, Returns-bind, [], none, some, ℕ, ◌<◌, ◌^◌, ◌∷◌}
use caen_daq.Board.{BoardInfo}
use caen_daq.DecodeStage.{Stage, decode_block, decode_loop, new_stage}
use caen_daq.Decoder.Clock.{time_stamp_ps}
use caen_daq.Decoder.Frames.{FrameLaws, FrameLib}
use caen_daq.Decoder.State.{new_decoder, register_info}
use caen_daq.Decoder.State.Registry.{IsSound, register_board-IsSound}
use caen_daq.Decoder.Walk.{decode}
use caen_daq.Decoder.Walk.Bounds.{decode-Returns}
use caen_daq.Histogram.{Floats, HistogramStore}
use caen_daq.HitTap.{HitTap}
use caen_daq.Queue.{BlockPtr, block_size}

-- A `RawBlock` of less than 2^33 bytes.
abbrev pub IsSmall : BlockPtr → Type 0
IsSmall b = block_size b < 2 ^ 33

module _ {Frame : Type 0} (lib : FrameLib Frame) (floats : Floats) where
  decode_block-Returns :
      (b : BlockPtr) (s : Stage Frame)
      → FrameLaws lib
      → IsSmall b
      → IsSound lib s.decoder
      → Returns (λ (s' : Stage Frame). IsSound lib s'.decoder) (decode_block lib floats b s)
  unfolding decode_block
  decode_block-Returns none s laws small sound = sound
  decode_block-Returns (some bytes) s laws small sound =
      Returns-bind (λ r. IsSound lib r.state) (λ s'. IsSound lib s'.decoder)
        (decode lib bytes s.decoder) _ (decode-Returns lib bytes s.decoder laws small sound)
        λ r sound'. sound'

  loop-Returns :
      (blocks : List BlockPtr) (s : Stage Frame)
      → FrameLaws lib
      → All IsSmall blocks
      → IsSound lib s.decoder
      → Returns (λ (s' : Stage Frame). IsSound lib s'.decoder) (decode_loop lib floats blocks s)
  unfolding decode_loop
  loop-Returns [] s laws small sound = sound
  loop-Returns (b ∷ blocks) s laws small sound =
      Returns-bind (λ s'. IsSound lib s'.decoder) (λ s'. IsSound lib s'.decoder)
        (decode_block lib floats b s) _ (decode_block-Returns b s laws small.0 sound)
        λ s' sound'. loop-Returns blocks s' laws small.1 sound'

  new_stage-IsSound :
      (bi : BoardInfo) (capacity : ℕ) (store : HistogramStore) (hits : HitTap)
      → IsSound lib (new_stage lib floats bi capacity store hits).decoder
  unfolding new_stage register_info
  new_stage-IsSound bi capacity store hits =
      register_board-IsSound lib bi.board_reg_id bi.dpp_type bi.model_name (time_stamp_ps bi)
        new_decoder tt

-- The decode thread of a new stage, for any board and any sequence of blocks below 2^33 bytes
-- each: it reads nothing outside a block and comes to the end of the sequence.
pub decode_loop-Returns :
    {Frame : Type 0} (lib : FrameLib Frame) (floats : Floats) (bi : BoardInfo) (capacity : ℕ)
    (store : HistogramStore) (hits : HitTap) (blocks : List BlockPtr)
    → FrameLaws lib
    → All IsSmall blocks
    → Returns
        (λ (s' : Stage Frame). IsSound lib s'.decoder)
        (decode_loop lib floats blocks (new_stage lib floats bi capacity store hits))
decode_loop-Returns lib floats bi capacity store hits blocks laws small =
    loop-Returns lib floats blocks (new_stage lib floats bi capacity store hits) laws small
      (new_stage-IsSound lib floats bi capacity store hits)
