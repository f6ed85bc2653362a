-- ===== src/Message/Opcode.antt =====
-- The `Opcode` of CEC messages, and how each may be addressed (linux-cec/src/message.rs).
use linux_cec.Operand.Primitive.{IsEnum, Primitive, try_from_primitive}
use linux_cec.Prelude.{[], arith, ◌∷◌, ℕ, refl}

pub data Opcode : Type 0 where
  op_active_source op_image_view_on op_text_view_on op_inactive_source : Opcode
  op_request_active_source op_routing_change op_routing_information op_set_stream_path : Opcode
  op_standby op_record_off op_record_on op_record_status op_record_tv_screen : Opcode
  op_clear_analogue_timer op_clear_digital_timer op_clear_ext_timer : Opcode
  op_set_analogue_timer op_set_digital_timer op_set_ext_timer : Opcode
  op_set_timer_program_title op_timer_cleared_status op_timer_status op_cec_version : Opcode
  op_get_cec_version op_give_physical_addr op_get_menu_language op_report_physical_addr : Opcode
  op_set_menu_language op_deck_control op_deck_status op_give_deck_status op_play : Opcode
  op_give_tuner_device_status op_select_analogue_service op_select_digital_service : Opcode
  op_tuner_device_status op_tuner_step_decrement op_tuner_step_increment : Opcode
  op_device_vendor_id op_give_device_vendor_id op_vendor_command : Opcode
  op_vendor_command_with_id op_vendor_remote_button_down op_vendor_remote_button_up : Opcode
  op_set_osd_string op_give_osd_name op_set_osd_name op_menu_request op_menu_status : Opcode
  op_user_control_pressed op_user_control_released op_give_device_power_status : Opcode
  op_report_power_status op_feature_abort op_abort op_give_audio_status : Opcode
  op_give_system_audio_mode_status op_report_audio_status : Opcode
  op_report_short_audio_descriptor op_request_short_audio_descriptor : Opcode
  op_set_system_audio_mode op_system_audio_mode_request op_system_audio_mode_status : Opcode
  op_set_audio_rate op_initiate_arc op_report_arc_initiated op_report_arc_terminated : Opcode
  op_request_arc_initiation op_request_arc_termination op_terminate_arc op_cdc_message : Opcode
  op_report_features op_give_features op_request_current_latency : Opcode
  op_report_current_latency op_set_audio_volume_level : Opcode

abbrev pub opcode_discriminant : Opcode → ℕ
opcode_discriminant op_active_source = 0x82
opcode_discriminant op_image_view_on = 0x04
opcode_discriminant op_text_view_on = 0x0d
opcode_discriminant op_inactive_source = 0x9d
opcode_discriminant op_request_active_source = 0x85
opcode_discriminant op_routing_change = 0x80
opcode_discriminant op_routing_information = 0x81
opcode_discriminant op_set_stream_path = 0x86
opcode_discriminant op_standby = 0x36
opcode_discriminant op_record_off = 0x0b
opcode_discriminant op_record_on = 0x09
opcode_discriminant op_record_status = 0x0a
opcode_discriminant op_record_tv_screen = 0x0f
opcode_discriminant op_clear_analogue_timer = 0x33
opcode_discriminant op_clear_digital_timer = 0x99
opcode_discriminant op_clear_ext_timer = 0xa1
opcode_discriminant op_set_analogue_timer = 0x34
opcode_discriminant op_set_digital_timer = 0x97
opcode_discriminant op_set_ext_timer = 0xa2
opcode_discriminant op_set_timer_program_title = 0x67
opcode_discriminant op_timer_cleared_status = 0x43
opcode_discriminant op_timer_status = 0x35
opcode_discriminant op_cec_version = 0x9e
opcode_discriminant op_get_cec_version = 0x9f
opcode_discriminant op_give_physical_addr = 0x83
opcode_discriminant op_get_menu_language = 0x91
opcode_discriminant op_report_physical_addr = 0x84
opcode_discriminant op_set_menu_language = 0x32
opcode_discriminant op_deck_control = 0x42
opcode_discriminant op_deck_status = 0x1b
opcode_discriminant op_give_deck_status = 0x1a
opcode_discriminant op_play = 0x41
opcode_discriminant op_give_tuner_device_status = 0x08
opcode_discriminant op_select_analogue_service = 0x92
opcode_discriminant op_select_digital_service = 0x93
opcode_discriminant op_tuner_device_status = 0x07
opcode_discriminant op_tuner_step_decrement = 0x06
opcode_discriminant op_tuner_step_increment = 0x05
opcode_discriminant op_device_vendor_id = 0x87
opcode_discriminant op_give_device_vendor_id = 0x8c
opcode_discriminant op_vendor_command = 0x89
opcode_discriminant op_vendor_command_with_id = 0xa0
opcode_discriminant op_vendor_remote_button_down = 0x8a
opcode_discriminant op_vendor_remote_button_up = 0x8b
opcode_discriminant op_set_osd_string = 0x64
opcode_discriminant op_give_osd_name = 0x46
opcode_discriminant op_set_osd_name = 0x47
opcode_discriminant op_menu_request = 0x8d
opcode_discriminant op_menu_status = 0x8e
opcode_discriminant op_user_control_pressed = 0x44
opcode_discriminant op_user_control_released = 0x45
opcode_discriminant op_give_device_power_status = 0x8f
opcode_discriminant op_report_power_status = 0x90
opcode_discriminant op_feature_abort = 0x00
opcode_discriminant op_abort = 0xff
opcode_discriminant op_give_audio_status = 0x71
opcode_discriminant op_give_system_audio_mode_status = 0x7d
opcode_discriminant op_report_audio_status = 0x7a
opcode_discriminant op_report_short_audio_descriptor = 0xa3
opcode_discriminant op_request_short_audio_descriptor = 0xa4
opcode_discriminant op_set_system_audio_mode = 0x72
opcode_discriminant op_system_audio_mode_request = 0x70
opcode_discriminant op_system_audio_mode_status = 0x7e
opcode_discriminant op_set_audio_rate = 0x9a
opcode_discriminant op_initiate_arc = 0xc0
opcode_discriminant op_report_arc_initiated = 0xc1
opcode_discriminant op_report_arc_terminated = 0xc2
opcode_discriminant op_request_arc_initiation = 0xc3
opcode_discriminant op_request_arc_termination = 0xc4
opcode_discriminant op_terminate_arc = 0xc5
opcode_discriminant op_cdc_message = 0xf8
opcode_discriminant op_report_features = 0xa6
opcode_discriminant op_give_features = 0xa5
opcode_discriminant op_request_current_latency = 0xa7
opcode_discriminant op_report_current_latency = 0xa8
opcode_discriminant op_set_audio_volume_level = 0x73

abbrev pub opcodes : Primitive Opcode
opcodes = record {
  name = "Opcode";
  variants =
      op_active_source ∷ op_image_view_on ∷ op_text_view_on ∷ op_inactive_source
      ∷ op_request_active_source ∷ op_routing_change ∷ op_routing_information ∷ op_set_stream_path
      ∷ op_standby ∷ op_record_off ∷ op_record_on ∷ op_record_status ∷ op_record_tv_screen
      ∷ op_clear_analogue_timer ∷ op_clear_digital_timer ∷ op_clear_ext_timer
      ∷ op_set_analogue_timer ∷ op_set_digital_timer ∷ op_set_ext_timer ∷ op_set_timer_program_title
      ∷ op_timer_cleared_status ∷ op_timer_status ∷ op_cec_version ∷ op_get_cec_version
      ∷ op_give_physical_addr ∷ op_get_menu_language ∷ op_report_physical_addr
      ∷ op_set_menu_language ∷ op_deck_control ∷ op_deck_status ∷ op_give_deck_status ∷ op_play
      ∷ op_give_tuner_device_status ∷ op_select_analogue_service ∷ op_select_digital_service
      ∷ op_tuner_device_status ∷ op_tuner_step_decrement ∷ op_tuner_step_increment
      ∷ op_device_vendor_id ∷ op_give_device_vendor_id ∷ op_vendor_command
      ∷ op_vendor_command_with_id ∷ op_vendor_remote_button_down ∷ op_vendor_remote_button_up
      ∷ op_set_osd_string ∷ op_give_osd_name ∷ op_set_osd_name ∷ op_menu_request ∷ op_menu_status
      ∷ op_user_control_pressed ∷ op_user_control_released ∷ op_give_device_power_status
      ∷ op_report_power_status ∷ op_feature_abort ∷ op_abort ∷ op_give_audio_status
      ∷ op_give_system_audio_mode_status ∷ op_report_audio_status ∷ op_report_short_audio_descriptor
      ∷ op_request_short_audio_descriptor ∷ op_set_system_audio_mode ∷ op_system_audio_mode_request
      ∷ op_system_audio_mode_status ∷ op_set_audio_rate ∷ op_initiate_arc ∷ op_report_arc_initiated
      ∷ op_report_arc_terminated ∷ op_request_arc_initiation ∷ op_request_arc_termination
      ∷ op_terminate_arc ∷ op_cdc_message ∷ op_report_features ∷ op_give_features
      ∷ op_request_current_latency ∷ op_report_current_latency ∷ op_set_audio_volume_level ∷ [];
  discriminant = opcode_discriminant;
}

pub opcodes-IsEnum : IsEnum opcodes
unfolding try_from_primitive
opcodes-IsEnum = record {
  discriminant-lt = elim [ op_active_source ↦ omega arith | _ ↦ omega arith ];
  try_from-discriminant = elim [ op_active_source ↦ refl | _ ↦ refl ];
}
