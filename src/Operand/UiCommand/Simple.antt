-- ===== src/Operand/UiCommand/Simple.antt =====
-- The commands of `UiCommand` (linux-cec/src/operand.rs) that have no parameter.
use linux_cec.Operand.Primitive.{IsEnum, Primitive, try_from_primitive}
use linux_cec.Prelude.{refl, arith, [], ◌∷◌, ℕ}

pub data UiSimple : Type 0 where
  ui_select ui_up ui_down ui_left ui_right ui_right_up ui_right_down ui_left_up : UiSimple
  ui_left_down ui_device_root_menu ui_device_setup_menu ui_contents_menu : UiSimple
  ui_favorite_menu ui_back ui_media_top_menu ui_media_context_sensitive_menu : UiSimple
  ui_number_entry_mode ui_number11 ui_number12 ui_number0_or_number10 ui_number1 : UiSimple
  ui_number2 ui_number3 ui_number4 ui_number5 ui_number6 ui_number7 ui_number8 : UiSimple
  ui_number9 ui_dot ui_enter ui_clear ui_next_favorite ui_channel_up ui_channel_down : UiSimple
  ui_previous_channel ui_sound_select ui_input_select ui_display_information ui_help : UiSimple
  ui_page_up ui_page_down ui_power ui_volume_up ui_volume_down ui_mute ui_play : UiSimple
  ui_stop ui_pause ui_record ui_rewind ui_fast_forward ui_eject ui_skip_forward : UiSimple
  ui_skip_backward ui_stop_record ui_pause_record ui_angle ui_sub_picture : UiSimple
  ui_video_on_demand ui_electronic_program_guide ui_timer_programming : UiSimple
  ui_initial_configuration ui_audio_description ui_internet ui_three_d_mode : UiSimple
  ui_pause_play_function ui_record_function ui_pause_record_function ui_stop_function : UiSimple
  ui_mute_function ui_restore_volume_function ui_power_toggle_function : UiSimple
  ui_power_off_function ui_power_on_function ui_f1_blue ui_f2_red ui_f3_green : UiSimple
  ui_f4_yellow ui_f5 ui_data : UiSimple

abbrev pub ui_simple_discriminant : UiSimple → ℕ
ui_simple_discriminant ui_select = 0x00
ui_simple_discriminant ui_up = 0x01
ui_simple_discriminant ui_down = 0x02
ui_simple_discriminant ui_left = 0x03
ui_simple_discriminant ui_right = 0x04
ui_simple_discriminant ui_right_up = 0x05
ui_simple_discriminant ui_right_down = 0x06
ui_simple_discriminant ui_left_up = 0x07
ui_simple_discriminant ui_left_down = 0x08
ui_simple_discriminant ui_device_root_menu = 0x09
ui_simple_discriminant ui_device_setup_menu = 0x0a
ui_simple_discriminant ui_contents_menu = 0x0b
ui_simple_discriminant ui_favorite_menu = 0x0c
ui_simple_discriminant ui_back = 0x0d
ui_simple_discriminant ui_media_top_menu = 0x10
ui_simple_discriminant ui_media_context_sensitive_menu = 0x11
ui_simple_discriminant ui_number_entry_mode = 0x1d
ui_simple_discriminant ui_number11 = 0x1e
ui_simple_discriminant ui_number12 = 0x1f
ui_simple_discriminant ui_number0_or_number10 = 0x20
ui_simple_discriminant ui_number1 = 0x21
ui_simple_discriminant ui_number2 = 0x22
ui_simple_discriminant ui_number3 = 0x23
ui_simple_discriminant ui_number4 = 0x24
ui_simple_discriminant ui_number5 = 0x25
ui_simple_discriminant ui_number6 = 0x26
ui_simple_discriminant ui_number7 = 0x27
ui_simple_discriminant ui_number8 = 0x28
ui_simple_discriminant ui_number9 = 0x29
ui_simple_discriminant ui_dot = 0x2a
ui_simple_discriminant ui_enter = 0x2b
ui_simple_discriminant ui_clear = 0x2c
ui_simple_discriminant ui_next_favorite = 0x2f
ui_simple_discriminant ui_channel_up = 0x30
ui_simple_discriminant ui_channel_down = 0x31
ui_simple_discriminant ui_previous_channel = 0x32
ui_simple_discriminant ui_sound_select = 0x33
ui_simple_discriminant ui_input_select = 0x34
ui_simple_discriminant ui_display_information = 0x35
ui_simple_discriminant ui_help = 0x36
ui_simple_discriminant ui_page_up = 0x37
ui_simple_discriminant ui_page_down = 0x38
ui_simple_discriminant ui_power = 0x40
ui_simple_discriminant ui_volume_up = 0x41
ui_simple_discriminant ui_volume_down = 0x42
ui_simple_discriminant ui_mute = 0x43
ui_simple_discriminant ui_play = 0x44
ui_simple_discriminant ui_stop = 0x45
ui_simple_discriminant ui_pause = 0x46
ui_simple_discriminant ui_record = 0x47
ui_simple_discriminant ui_rewind = 0x48
ui_simple_discriminant ui_fast_forward = 0x49
ui_simple_discriminant ui_eject = 0x4a
ui_simple_discriminant ui_skip_forward = 0x4b
ui_simple_discriminant ui_skip_backward = 0x4c
ui_simple_discriminant ui_stop_record = 0x4d
ui_simple_discriminant ui_pause_record = 0x4e
ui_simple_discriminant ui_angle = 0x50
ui_simple_discriminant ui_sub_picture = 0x51
ui_simple_discriminant ui_video_on_demand = 0x52
ui_simple_discriminant ui_electronic_program_guide = 0x53
ui_simple_discriminant ui_timer_programming = 0x54
ui_simple_discriminant ui_initial_configuration = 0x55
ui_simple_discriminant ui_audio_description = 0x58
ui_simple_discriminant ui_internet = 0x59
ui_simple_discriminant ui_three_d_mode = 0x5a
ui_simple_discriminant ui_pause_play_function = 0x61
ui_simple_discriminant ui_record_function = 0x62
ui_simple_discriminant ui_pause_record_function = 0x63
ui_simple_discriminant ui_stop_function = 0x64
ui_simple_discriminant ui_mute_function = 0x65
ui_simple_discriminant ui_restore_volume_function = 0x66
ui_simple_discriminant ui_power_toggle_function = 0x6b
ui_simple_discriminant ui_power_off_function = 0x6c
ui_simple_discriminant ui_power_on_function = 0x6d
ui_simple_discriminant ui_f1_blue = 0x71
ui_simple_discriminant ui_f2_red = 0x72
ui_simple_discriminant ui_f3_green = 0x73
ui_simple_discriminant ui_f4_yellow = 0x74
ui_simple_discriminant ui_f5 = 0x75
ui_simple_discriminant ui_data = 0x76

abbrev pub ui_simple : Primitive UiSimple
ui_simple = record {
  name = "UiCommand";
  variants =
      ui_select ∷ ui_up ∷ ui_down ∷ ui_left ∷ ui_right ∷ ui_right_up ∷ ui_right_down ∷ ui_left_up
      ∷ ui_left_down ∷ ui_device_root_menu ∷ ui_device_setup_menu ∷ ui_contents_menu
      ∷ ui_favorite_menu ∷ ui_back ∷ ui_media_top_menu ∷ ui_media_context_sensitive_menu
      ∷ ui_number_entry_mode ∷ ui_number11 ∷ ui_number12 ∷ ui_number0_or_number10 ∷ ui_number1
      ∷ ui_number2 ∷ ui_number3 ∷ ui_number4 ∷ ui_number5 ∷ ui_number6 ∷ ui_number7 ∷ ui_number8
      ∷ ui_number9 ∷ ui_dot ∷ ui_enter ∷ ui_clear ∷ ui_next_favorite ∷ ui_channel_up
      ∷ ui_channel_down ∷ ui_previous_channel ∷ ui_sound_select ∷ ui_input_select
      ∷ ui_display_information ∷ ui_help ∷ ui_page_up ∷ ui_page_down ∷ ui_power ∷ ui_volume_up
      ∷ ui_volume_down ∷ ui_mute ∷ ui_play ∷ ui_stop ∷ ui_pause ∷ ui_record ∷ ui_rewind
      ∷ ui_fast_forward ∷ ui_eject ∷ ui_skip_forward ∷ ui_skip_backward ∷ ui_stop_record
      ∷ ui_pause_record ∷ ui_angle ∷ ui_sub_picture ∷ ui_video_on_demand
      ∷ ui_electronic_program_guide ∷ ui_timer_programming ∷ ui_initial_configuration
      ∷ ui_audio_description ∷ ui_internet ∷ ui_three_d_mode ∷ ui_pause_play_function
      ∷ ui_record_function ∷ ui_pause_record_function ∷ ui_stop_function ∷ ui_mute_function
      ∷ ui_restore_volume_function ∷ ui_power_toggle_function ∷ ui_power_off_function
      ∷ ui_power_on_function ∷ ui_f1_blue ∷ ui_f2_red ∷ ui_f3_green ∷ ui_f4_yellow ∷ ui_f5 ∷ ui_data
      ∷ [];
  discriminant = ui_simple_discriminant;
}

pub ui_simple-IsEnum : IsEnum ui_simple
unfolding try_from_primitive
ui_simple-IsEnum = record {
  discriminant-lt = elim [ ui_select ↦ omega arith | _ ↦ omega arith ];
  try_from-discriminant = elim [ ui_select ↦ refl | _ ↦ refl ];
}
