-- ===== src/Operand/UiCommand/Payload.antt =====
-- The codecs of the parameters of `UiCommand` (linux-cec/src/operand.rs) are lawful.
use linux_cec.Operand.OneByte.{one_byte}
use linux_cec.Operand.Structs.{derive_struct}
use linux_cec.Operand.Enums.Deck.{play_mode-IsEnum, play_mode}
use linux_cec.Operand.Enums.Audio.{
  ui_sound_presentation_control-IsEnum, ui_sound_presentation_control,
}
use linux_cec.Core.Slice.{IsByte}
use linux_cec.Operand.Enums.Broadcast.{ui_broadcast_type-IsEnum, ui_broadcast_type}
use linux_cec.Operand.Scalars.{u8-Prefixed, u8}
use linux_cec.Operand.Refined.Channel.{channel_id-Prefixed, IsChannelId, channel_id}
use linux_cec.Operand.Optional.{optional-Lawful, Optionally, optional}
use linux_cec.Operand.Primitive.{enum_operand-Prefixed, Any, enum_operand, IsEnum, Primitive}
use linux_cec.Operand.UiCommand.{
  code_audio_input, code_av_input, code_media, code_tune, code_play, code_sound, code_broadcast,
  code_simple, nothing_follows, parameter, Parameter, UiCode,
}
use linux_cec.Operand.Encodable.{Lawful}
use linux_cec.Prelude.{refl, arith}

abbrev pub ParameterValid : (c : UiCode) → Parameter c → Type 0
ParameterValid (code_simple s) = λ x. Unit {0}
ParameterValid code_broadcast = Optionally Any
ParameterValid code_sound = Optionally Any
ParameterValid code_play = Optionally Any
ParameterValid code_tune = Optionally IsChannelId
ParameterValid code_media = Optionally IsByte
ParameterValid code_av_input = Optionally IsByte
ParameterValid code_audio_input = Optionally IsByte

nothing_follows-Lawful : Lawful nothing_follows (λ x. Unit {0})
nothing_follows-Lawful = record {
  to_bytes-IsByte = λ x h. tt;
  length-to_bytes = λ x h. refl;
  try_from_bytes-to_bytes = λ x h. refl;
  decoded_valid = λ bytes x h e. tt;
  len_le = λ bytes x e. omega arith;
  never_panics = λ bytes e. cc;
}

optional_enum-Lawful :
    {A : Type 0} (p : Primitive A) → IsEnum p → Lawful (optional (enum_operand p)) (Optionally Any)
optional_enum-Lawful p e =
    optional-Lawful (enum_operand p) Any (enum_operand-Prefixed p e).lawful
      (λ a h. unfold one_byte in omega arith)

optional-u8-Lawful : Lawful (optional u8) (Optionally IsByte)
optional-u8-Lawful =
    optional-Lawful u8 IsByte u8-Prefixed.lawful (λ a h. unfold one_byte in omega arith)

optional_channel-Lawful : Lawful (optional channel_id) (Optionally IsChannelId)
optional_channel-Lawful =
    optional-Lawful channel_id IsChannelId channel_id-Prefixed.lawful
      (λ a h. unfold derive_struct in omega arith)

pub parameter-Lawful : (c : UiCode) → Lawful (parameter c) (ParameterValid c)
parameter-Lawful (code_simple s) = nothing_follows-Lawful
parameter-Lawful code_broadcast = optional_enum-Lawful ui_broadcast_type ui_broadcast_type-IsEnum
parameter-Lawful code_sound =
    optional_enum-Lawful ui_sound_presentation_control ui_sound_presentation_control-IsEnum
parameter-Lawful code_play = optional_enum-Lawful play_mode play_mode-IsEnum
parameter-Lawful code_tune = optional_channel-Lawful
parameter-Lawful code_media = optional-u8-Lawful
parameter-Lawful code_av_input = optional-u8-Lawful
parameter-Lawful code_audio_input = optional-u8-Lawful
