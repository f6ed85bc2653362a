-- ===== src/Message/Parts.antt =====
-- The parts of a CEC message, and its codec (linux-cec/src/message.rs).
use linux_cec.Message.Opcode.{Opcode, opcodes}
use linux_cec.Message.Data.{
  Message, active_source, image_view_on, text_view_on, inactive_source, request_active_source,
  routing_change, routing_information, set_stream_path, standby, record_off, record_on,
  record_status, record_tv_screen, clear_analogue_timer, clear_digital_timer, clear_ext_timer,
  set_analogue_timer, set_digital_timer, set_ext_timer, set_timer_program_title,
  timer_cleared_status, timer_status, cec_version, get_cec_version, give_physical_addr,
  get_menu_language, report_physical_addr, set_menu_language, deck_control, deck_status,
  give_deck_status, play, give_tuner_device_status, select_analogue_service, select_digital_service,
  tuner_device_status, tuner_step_decrement, tuner_step_increment, device_vendor_id,
  give_device_vendor_id, vendor_command, vendor_command_with_id, vendor_remote_button_down,
  vendor_remote_button_up, set_osd_string, give_osd_name, set_osd_name, menu_request, menu_status,
  user_control_pressed, user_control_released, give_device_power_status, report_power_status,
  feature_abort, abort, give_audio_status, give_system_audio_mode_status, report_audio_status,
  report_short_audio_descriptor, request_short_audio_descriptor, set_system_audio_mode,
  system_audio_mode_request, system_audio_mode_status, set_audio_rate, initiate_arc,
  report_arc_initiated, report_arc_terminated, request_arc_initiation, request_arc_termination,
  terminate_arc, cdc_message, report_features, give_features, request_current_latency,
  report_current_latency, set_audio_volume_level, opcode,
}
use linux_cec.Message.Variants.{variant, build}
use linux_cec.Operand.Fields.{Tuple}
use linux_cec.MessageEnum.{fields_of, MessageEnum}

abbrev pub parts : (m : Message) → Tuple (fields_of (variant (opcode m)))
parts (active_source x0) = (x0, tt)
parts image_view_on = tt
parts text_view_on = tt
parts (inactive_source x0) = (x0, tt)
parts request_active_source = tt
parts (routing_change x0 x1) = (x0, (x1, tt))
parts (routing_information x0) = (x0, tt)
parts (set_stream_path x0) = (x0, tt)
parts standby = tt
parts record_off = tt
parts (record_on x0) = (x0, tt)
parts (record_status x0) = (x0, tt)
parts record_tv_screen = tt
parts (clear_analogue_timer x0 x1 x2 x3 x4 x5) = (x0, (x1, (x2, (x3, (x4, (x5, tt))))))
parts (clear_digital_timer x0 x1 x2 x3 x4 x5) = (x0, (x1, (x2, (x3, (x4, (x5, tt))))))
parts (clear_ext_timer x0 x1 x2 x3 x4 x5) = (x0, (x1, (x2, (x3, (x4, (x5, tt))))))
parts (set_analogue_timer x0 x1 x2 x3 x4 x5) = (x0, (x1, (x2, (x3, (x4, (x5, tt))))))
parts (set_digital_timer x0 x1 x2 x3 x4 x5) = (x0, (x1, (x2, (x3, (x4, (x5, tt))))))
parts (set_ext_timer x0 x1 x2 x3 x4 x5) = (x0, (x1, (x2, (x3, (x4, (x5, tt))))))
parts (set_timer_program_title x0) = (x0, tt)
parts (timer_cleared_status x0) = (x0, tt)
parts (timer_status x0) = (x0, tt)
parts (cec_version x0) = (x0, tt)
parts get_cec_version = tt
parts give_physical_addr = tt
parts get_menu_language = tt
parts (report_physical_addr x0 x1) = (x0, (x1, tt))
parts (set_menu_language x0) = (x0, tt)
parts (deck_control x0) = (x0, tt)
parts (deck_status x0) = (x0, tt)
parts (give_deck_status x0) = (x0, tt)
parts (play x0) = (x0, tt)
parts (give_tuner_device_status x0) = (x0, tt)
parts (select_analogue_service x0) = (x0, tt)
parts (select_digital_service x0) = (x0, tt)
parts (tuner_device_status x0) = (x0, tt)
parts tuner_step_decrement = tt
parts tuner_step_increment = tt
parts (device_vendor_id x0) = (x0, tt)
parts give_device_vendor_id = tt
parts (vendor_command x0) = (x0, tt)
parts (vendor_command_with_id x0 x1) = (x0, (x1, tt))
parts (vendor_remote_button_down x0) = (x0, tt)
parts vendor_remote_button_up = tt
parts (set_osd_string x0 x1) = (x0, (x1, tt))
parts give_osd_name = tt
parts (set_osd_name x0) = (x0, tt)
parts (menu_request x0) = (x0, tt)
parts (menu_status x0) = (x0, tt)
parts (user_control_pressed x0) = (x0, tt)
parts user_control_released = tt
parts give_device_power_status = tt
parts (report_power_status x0) = (x0, tt)
parts (feature_abort x0 x1) = (x0, (x1, tt))
parts abort = tt
parts give_audio_status = tt
parts give_system_audio_mode_status = tt
parts (report_audio_status x0) = (x0, tt)
parts (report_short_audio_descriptor x0) = (x0, tt)
parts (request_short_audio_descriptor x0) = (x0, tt)
parts (set_system_audio_mode x0) = (x0, tt)
parts (system_audio_mode_request x0) = (x0, tt)
parts (system_audio_mode_status x0) = (x0, tt)
parts (set_audio_rate x0) = (x0, tt)
parts initiate_arc = tt
parts report_arc_initiated = tt
parts report_arc_terminated = tt
parts request_arc_initiation = tt
parts request_arc_termination = tt
parts terminate_arc = tt
parts (cdc_message x0 x1) = (x0, (x1, tt))
parts (report_features x0 x1 x2 x3) = (x0, (x1, (x2, (x3, tt))))
parts give_features = tt
parts (request_current_latency x0) = (x0, tt)
parts (report_current_latency x0 x1 x2 x3) = (x0, (x1, (x2, (x3, tt))))
parts (set_audio_volume_level x0) = (x0, tt)

abbrev pub cec_message : MessageEnum Message Opcode
cec_message = record {
  opcodes = opcodes;
  variant = variant;
  build = build;
  opcode = opcode;
  parts = parts;
}
