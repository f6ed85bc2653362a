-- ===== src/Operand/Enums/Audio.antt =====
-- The enums of audio messages (linux-cec/src/operand.rs), with their discriminants from
-- linux-cec-sys/src/constants.rs.
use linux_cec.Prelude.{ℕ, refl, [], ◌∷◌, arith}
use linux_cec.Operand.Primitive.{Primitive, IsEnum, try_from_primitive}

pub data AudioRate : Type 0 where
  off wide_standard wide_fast wide_slow narrow_standard narrow_fast narrow_slow : AudioRate

abbrev pub audio_rate_discriminant : AudioRate → ℕ
audio_rate_discriminant off = 0x00
audio_rate_discriminant wide_standard = 0x01
audio_rate_discriminant wide_fast = 0x02
audio_rate_discriminant wide_slow = 0x03
audio_rate_discriminant narrow_standard = 0x04
audio_rate_discriminant narrow_fast = 0x05
audio_rate_discriminant narrow_slow = 0x06

abbrev pub audio_rate : Primitive AudioRate
audio_rate = record {
  name = "AudioRate";
  variants =
      off ∷ wide_standard ∷ wide_fast ∷ wide_slow ∷ narrow_standard ∷ narrow_fast ∷ narrow_slow
      ∷ [];
  discriminant = audio_rate_discriminant;
}

pub audio_rate-IsEnum : IsEnum audio_rate
unfolding try_from_primitive
audio_rate-IsEnum = record {
  discriminant-lt = elim [ off ↦ omega arith | _ ↦ omega arith ];
  try_from-discriminant = elim [ off ↦ refl | _ ↦ refl ];
}

pub data UiSoundPresentationControl : Type 0 where
  dual_mono karaoke downmix reverb equalizer bass_up bass_neutral : UiSoundPresentationControl
  bass_down treble_up treble_neutral treble_down : UiSoundPresentationControl

abbrev pub ui_sound_presentation_control_discriminant : UiSoundPresentationControl → ℕ
ui_sound_presentation_control_discriminant dual_mono = 0x10
ui_sound_presentation_control_discriminant karaoke = 0x20
ui_sound_presentation_control_discriminant downmix = 0x80
ui_sound_presentation_control_discriminant reverb = 0x90
ui_sound_presentation_control_discriminant equalizer = 0xa0
ui_sound_presentation_control_discriminant bass_up = 0xb1
ui_sound_presentation_control_discriminant bass_neutral = 0xb2
ui_sound_presentation_control_discriminant bass_down = 0xb3
ui_sound_presentation_control_discriminant treble_up = 0xc1
ui_sound_presentation_control_discriminant treble_neutral = 0xc2
ui_sound_presentation_control_discriminant treble_down = 0xc3

abbrev pub ui_sound_presentation_control : Primitive UiSoundPresentationControl
ui_sound_presentation_control = record {
  name = "UiSoundPresentationControl";
  variants =
      dual_mono ∷ karaoke ∷ downmix ∷ reverb ∷ equalizer ∷ bass_up ∷ bass_neutral ∷ bass_down
      ∷ treble_up ∷ treble_neutral ∷ treble_down ∷ [];
  discriminant = ui_sound_presentation_control_discriminant;
}

pub ui_sound_presentation_control-IsEnum : IsEnum ui_sound_presentation_control
unfolding try_from_primitive
ui_sound_presentation_control-IsEnum = record {
  discriminant-lt = elim [ dual_mono ↦ omega arith | _ ↦ omega arith ];
  try_from-discriminant = elim [ dual_mono ↦ refl | _ ↦ refl ];
}
