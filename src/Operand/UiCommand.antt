-- ===== src/Operand/UiCommand.antt =====
-- `UiCommand` (linux-cec/src/operand.rs): a code, and for some codes an optional parameter. The
-- variants without a parameter are those of `UiSimple`.
pub mod Simple
pub mod Payload
pub mod Laws
use linux_cec.Operand.Scalars.{u8}
use linux_cec.Operand.Refined.Channel.{channel_id, ChannelId}
use linux_cec.Operand.Enums.Deck.{play_mode, PlayMode}
use linux_cec.Core.Range.{at_least}
use linux_cec.Operand.Enums.Audio.{ui_sound_presentation_control, UiSoundPresentationControl}
use linux_cec.Core.Slice.{slice_from, index}
use linux_cec.Operand.Enums.Broadcast.{ui_broadcast_type, UiBroadcastType}
use linux_cec.Operand.Optional.{optional}
use linux_cec.Operand.Encodable.{OperandEncodable}
use linux_cec.Operand.Primitive.{enum_operand, try_from_primitive}
use linux_cec.Core.Error.{◌>>◌, ◌>>=◌, ok, Result, check}
use linux_cec.Operand.UiCommand.Simple.{ui_simple, UiSimple}
use linux_cec.Prelude.{length, ◌==◌, List, ◌+◌, if◌then◌else◌, [], ◌∷◌, Option, ℕ}

pub data UiCommand : Type 0 where
  simple : UiSimple → UiCommand
  select_broadcast_type : Option UiBroadcastType → UiCommand
  select_sound_presentation : Option UiSoundPresentationControl → UiCommand
  play_function : Option PlayMode → UiCommand
  tune_function : Option ChannelId → UiCommand
  select_media_function : Option ℕ → UiCommand
  select_av_input_function : Option ℕ → UiCommand
  select_audio_input_function : Option ℕ → UiCommand

-- The first byte.
pub data UiCode : Type 0 where
  code_simple : UiSimple → UiCode
  code_broadcast code_sound code_play code_tune code_media code_av_input code_audio_input : UiCode

abbrev pub ui_code_into : UiCode → ℕ
ui_code_into (code_simple s) = ui_simple.discriminant s
ui_code_into code_broadcast = 0x56
ui_code_into code_sound = 0x57
ui_code_into code_play = 0x60
ui_code_into code_tune = 0x67
ui_code_into code_media = 0x68
ui_code_into code_av_input = 0x69
ui_code_into code_audio_input = 0x6a

unfoldable pub ui_code_try_from : ℕ → Result UiCode
unfolding try_from_primitive
ui_code_try_from b =
    if b == 0x56
    then ok code_broadcast
    else if b == 0x57
    then ok code_sound
    else if b == 0x60
    then ok code_play
    else if b == 0x67
    then ok code_tune
    else if b == 0x68
    then ok code_media
    else if b == 0x69
    then ok code_av_input
    else if b == 0x6a
    then ok code_audio_input
    else (do s ← try_from_primitive ui_simple b; ok (code_simple s))

-- What follows the first byte: nothing, which reads no bytes, or an optional parameter.
abbrev pub nothing_follows : OperandEncodable (Unit {0})
nothing_follows = record {
  to_bytes = λ _. [];
  try_from_bytes = λ bytes. ok tt;
  len = λ _. 0;
  expected_len = at_least 0;
}

abbrev pub Parameter : UiCode → Type 0
Parameter (code_simple s) = Unit {0}
Parameter code_broadcast = Option UiBroadcastType
Parameter code_sound = Option UiSoundPresentationControl
Parameter code_play = Option PlayMode
Parameter code_tune = Option ChannelId
Parameter code_media = Option ℕ
Parameter code_av_input = Option ℕ
Parameter code_audio_input = Option ℕ

abbrev pub parameter : (c : UiCode) → OperandEncodable (Parameter c)
parameter (code_simple s) = nothing_follows
parameter code_broadcast = optional (enum_operand ui_broadcast_type)
parameter code_sound = optional (enum_operand ui_sound_presentation_control)
parameter code_play = optional (enum_operand play_mode)
parameter code_tune = optional channel_id
parameter code_media = optional u8
parameter code_av_input = optional u8
parameter code_audio_input = optional u8

abbrev pub code_of : UiCommand → UiCode
code_of (simple s) = code_simple s
code_of (select_broadcast_type x) = code_broadcast
code_of (select_sound_presentation x) = code_sound
code_of (play_function x) = code_play
code_of (tune_function x) = code_tune
code_of (select_media_function x) = code_media
code_of (select_av_input_function x) = code_av_input
code_of (select_audio_input_function x) = code_audio_input

abbrev pub parameter_of : (u : UiCommand) → Parameter (code_of u)
parameter_of (simple s) = tt
parameter_of (select_broadcast_type x) = x
parameter_of (select_sound_presentation x) = x
parameter_of (play_function x) = x
parameter_of (tune_function x) = x
parameter_of (select_media_function x) = x
parameter_of (select_av_input_function x) = x
parameter_of (select_audio_input_function x) = x

abbrev pub command_of : (c : UiCode) → Parameter c → UiCommand
command_of (code_simple s) x = simple s
command_of code_broadcast x = select_broadcast_type x
command_of code_sound x = select_sound_presentation x
command_of code_play x = play_function x
command_of code_tune x = tune_function x
command_of code_media x = select_media_function x
command_of code_av_input x = select_av_input_function x
command_of code_audio_input x = select_audio_input_function x

-- Errors in the parameter are not moved by its offset.
unfoldable pub ui_try_from_bytes : List ℕ → Result UiCommand
unfolding check index slice_from ui_code_try_from
ui_try_from_bytes bytes = do
  check (at_least 1) (length bytes) "bytes"
  byte ← index bytes 0
  code ← ui_code_try_from byte
  rest ← slice_from bytes 1
  x ← (parameter code).try_from_bytes rest
  ok (command_of code x)

abbrev pub ui_command : OperandEncodable UiCommand
ui_command = record {
  to_bytes = λ u. ui_code_into (code_of u) ∷ (parameter (code_of u)).to_bytes (parameter_of u);
  try_from_bytes = ui_try_from_bytes;
  len = λ u. (parameter (code_of u)).len (parameter_of u) + 1;
  expected_len = at_least 1;
}
