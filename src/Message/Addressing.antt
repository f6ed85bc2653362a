-- ===== src/Message/Addressing.antt =====
-- `AddressingType`, and the one of each opcode (linux-cec/src/message.rs).
use linux_cec.Message.Opcode.{
  Opcode, op_active_source, op_image_view_on, op_text_view_on, op_inactive_source,
  op_request_active_source, op_routing_change, op_routing_information, op_set_stream_path,
  op_standby, op_record_off, op_record_on, op_record_status, op_record_tv_screen,
  op_clear_analogue_timer, op_clear_digital_timer, op_clear_ext_timer, op_set_analogue_timer,
  op_set_digital_timer, op_set_ext_timer, op_set_timer_program_title, op_timer_cleared_status,
  op_timer_status, op_cec_version, op_get_cec_version, op_give_physical_addr, op_get_menu_language,
  op_report_physical_addr, op_set_menu_language, op_deck_control, op_deck_status,
  op_give_deck_status, op_play, op_give_tuner_device_status, op_select_analogue_service,
  op_select_digital_service, op_tuner_device_status, op_tuner_step_decrement,
  op_tuner_step_increment, op_device_vendor_id, op_give_device_vendor_id, op_vendor_command,
  op_vendor_command_with_id, op_vendor_remote_button_down, op_vendor_remote_button_up,
  op_set_osd_string, op_give_osd_name, op_set_osd_name, op_menu_request, op_menu_status,
  op_user_control_pressed, op_user_control_released, op_give_device_power_status,
  op_report_power_status, op_feature_abort, op_abort, op_give_audio_status,
  op_give_system_audio_mode_status, op_report_audio_status, op_report_short_audio_descriptor,
  op_request_short_audio_descriptor, op_set_system_audio_mode, op_system_audio_mode_request,
  op_system_audio_mode_status, op_set_audio_rate, op_initiate_arc, op_report_arc_initiated,
  op_report_arc_terminated, op_request_arc_initiation, op_request_arc_termination, op_terminate_arc,
  op_cdc_message, op_report_features, op_give_features, op_request_current_latency,
  op_report_current_latency, op_set_audio_volume_level,
}
use linux_cec.Prelude.{true, false, ◌≡◌, Bool, ◌||◌, refl}

pub data AddressingType : Type 0 where
  direct broadcast either : AddressingType

-- `addressing_type`; an opcode without the attribute is addressed directly.
unfoldable pub addressing_type : Opcode → AddressingType
addressing_type op_active_source = broadcast
addressing_type op_image_view_on = direct
addressing_type op_text_view_on = direct
addressing_type op_inactive_source = direct
addressing_type op_request_active_source = broadcast
addressing_type op_routing_change = broadcast
addressing_type op_routing_information = broadcast
addressing_type op_set_stream_path = broadcast
addressing_type op_standby = either
addressing_type op_record_off = direct
addressing_type op_record_on = direct
addressing_type op_record_status = direct
addressing_type op_record_tv_screen = direct
addressing_type op_clear_analogue_timer = direct
addressing_type op_clear_digital_timer = direct
addressing_type op_clear_ext_timer = direct
addressing_type op_set_analogue_timer = direct
addressing_type op_set_digital_timer = direct
addressing_type op_set_ext_timer = direct
addressing_type op_set_timer_program_title = direct
addressing_type op_timer_cleared_status = direct
addressing_type op_timer_status = direct
addressing_type op_cec_version = direct
addressing_type op_get_cec_version = direct
addressing_type op_give_physical_addr = direct
addressing_type op_get_menu_language = direct
addressing_type op_report_physical_addr = broadcast
addressing_type op_set_menu_language = broadcast
addressing_type op_deck_control = direct
addressing_type op_deck_status = direct
addressing_type op_give_deck_status = direct
addressing_type op_play = direct
addressing_type op_give_tuner_device_status = direct
addressing_type op_select_analogue_service = direct
addressing_type op_select_digital_service = direct
addressing_type op_tuner_device_status = direct
addressing_type op_tuner_step_decrement = direct
addressing_type op_tuner_step_increment = direct
addressing_type op_device_vendor_id = broadcast
addressing_type op_give_device_vendor_id = direct
addressing_type op_vendor_command = direct
addressing_type op_vendor_command_with_id = either
addressing_type op_vendor_remote_button_down = either
addressing_type op_vendor_remote_button_up = either
addressing_type op_set_osd_string = direct
addressing_type op_give_osd_name = direct
addressing_type op_set_osd_name = direct
addressing_type op_menu_request = direct
addressing_type op_menu_status = direct
addressing_type op_user_control_pressed = direct
addressing_type op_user_control_released = direct
addressing_type op_give_device_power_status = direct
addressing_type op_report_power_status = either
addressing_type op_feature_abort = direct
addressing_type op_abort = direct
addressing_type op_give_audio_status = direct
addressing_type op_give_system_audio_mode_status = direct
addressing_type op_report_audio_status = direct
addressing_type op_report_short_audio_descriptor = direct
addressing_type op_request_short_audio_descriptor = direct
addressing_type op_set_system_audio_mode = either
addressing_type op_system_audio_mode_request = direct
addressing_type op_system_audio_mode_status = direct
addressing_type op_set_audio_rate = direct
addressing_type op_initiate_arc = direct
addressing_type op_report_arc_initiated = direct
addressing_type op_report_arc_terminated = direct
addressing_type op_request_arc_initiation = direct
addressing_type op_request_arc_termination = direct
addressing_type op_terminate_arc = direct
addressing_type op_cdc_message = broadcast
addressing_type op_report_features = broadcast
addressing_type op_give_features = direct
addressing_type op_request_current_latency = broadcast
addressing_type op_report_current_latency = broadcast
addressing_type op_set_audio_volume_level = direct

abbrev is_direct : AddressingType → Bool
is_direct broadcast = false
is_direct _ = true

abbrev is_broadcast : AddressingType → Bool
is_broadcast direct = false
is_broadcast _ = true

unfoldable pub can_directly_address : Opcode → Bool
unfolding addressing_type
can_directly_address opcode = is_direct (addressing_type opcode)

unfoldable pub can_broadcast : Opcode → Bool
unfolding addressing_type
can_broadcast opcode = is_broadcast (addressing_type opcode)

either_way : (a : AddressingType) → (is_direct a || is_broadcast a) ≡ true
either_way direct = refl
either_way broadcast = refl
either_way either = refl

-- Every opcode can be addressed in one way or the other.
pub can_address : (opcode : Opcode) → (can_directly_address opcode || can_broadcast opcode) ≡ true
unfolding can_directly_address can_broadcast
can_address opcode = either_way (addressing_type opcode)
