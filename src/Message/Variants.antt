-- ===== src/Message/Variants.antt =====
-- The variants of the CEC `Message` with the codecs of their fields (linux-cec/src/message.rs).
use linux_cec.Operand.Optional.{optional}
use linux_cec.Operand.Ranged.{audio_volume_level, delay}
use linux_cec.Operand.Tagged.Features.{device_features, rc_profile}
use linux_cec.Cdc.Message.{cdc_message_operand}
use linux_cec.Operand.Enums.Audio.{audio_rate}
use linux_cec.Message.Opcode.{
  Opcode, op_active_source, op_image_view_on, op_text_view_on, op_inactive_source,
  op_request_active_source, op_routing_change, op_routing_information, op_set_stream_path,
  op_standby, op_record_off, op_record_on, op_record_status, op_record_tv_screen,
  op_clear_analogue_timer, op_clear_digital_timer, op_clear_ext_timer, op_set_analogue_timer,
  op_set_digital_timer, op_set_ext_timer, op_set_timer_program_title, op_timer_cleared_status,
  op_timer_status, op_cec_version, op_get_cec_version, op_give_physical_addr, op_get_menu_language,
  op_report_physical_addr, op_set_menu_language, op_deck_control, op_deck_status,
  op_give_deck_status, op_play, op_give_tuner_device_status, op_select_analogue_service,
  op_select_digital_service, op_tuner_device_status, op_tuner_step_decrement,
  op_tuner_step_increment, op_device_vendor_id, op_give_device_vendor_id, op_vendor_command,
  op_vendor_command_with_id, op_vendor_remote_button_down, op_vendor_remote_button_up,
  op_set_osd_string, op_give_osd_name, op_set_osd_name, op_menu_request, op_menu_status,
  op_user_control_pressed, op_user_control_released, op_give_device_power_status,
  op_report_power_status, op_feature_abort, op_abort, op_give_audio_status,
  op_give_system_audio_mode_status, op_report_audio_status, op_report_short_audio_descriptor,
  op_request_short_audio_descriptor, op_set_system_audio_mode, op_system_audio_mode_request,
  op_system_audio_mode_status, op_set_audio_rate, op_initiate_arc, op_report_arc_initiated,
  op_report_arc_terminated, op_request_arc_initiation, op_request_arc_termination, op_terminate_arc,
  op_cdc_message, op_report_features, op_give_features, op_request_current_latency,
  op_report_current_latency, op_set_audio_volume_level,
}
use linux_cec.Message.Data.{
  descriptor_element, format_element, Message, active_source, image_view_on, text_view_on,
  inactive_source, request_active_source, routing_change, routing_information, set_stream_path,
  standby, record_off, record_on, record_status, record_tv_screen, clear_analogue_timer,
  clear_digital_timer, clear_ext_timer, set_analogue_timer, set_digital_timer, set_ext_timer,
  set_timer_program_title, timer_cleared_status, timer_status, cec_version, get_cec_version,
  give_physical_addr, get_menu_language, report_physical_addr, set_menu_language, deck_control,
  deck_status, give_deck_status, play, give_tuner_device_status, select_analogue_service,
  select_digital_service, tuner_device_status, tuner_step_decrement, tuner_step_increment,
  device_vendor_id, give_device_vendor_id, vendor_command, vendor_command_with_id,
  vendor_remote_button_down, vendor_remote_button_up, set_osd_string, give_osd_name, set_osd_name,
  menu_request, menu_status, user_control_pressed, user_control_released, give_device_power_status,
  report_power_status, feature_abort, abort, give_audio_status, give_system_audio_mode_status,
  report_audio_status, report_short_audio_descriptor, request_short_audio_descriptor,
  set_system_audio_mode, system_audio_mode_request, system_audio_mode_status, set_audio_rate,
  initiate_arc, report_arc_initiated, report_arc_terminated, request_arc_initiation,
  request_arc_termination, terminate_arc, cdc_message, report_features, give_features,
  request_current_latency, report_current_latency, set_audio_volume_level,
}
use linux_cec.Operand.Buffer.{bounded_buffer}
use linux_cec.Operand.Bitfields.{latency_flags, audio_status}
use linux_cec.Operand.UiCommand.{ui_command}
use linux_cec.Operand.Enums.Menu.{menu_state, menu_request_type, display_control}
use linux_cec.Operand.Tuner.{tuner_device_info}
use linux_cec.Operand.Enums.Deck.{play_mode, status_request, deck_info, deck_control_mode}
use linux_cec.Operand.Scalars.{bool, u8, array}
use linux_cec.Operand.Enums.Device.{abort_reason, power_status, primary_device_type, version}
use linux_cec.Operand.Headed.Timer.Parts.{timer_status_data}
use linux_cec.Operand.Buffer.Bytes.{bytes_operand}
use linux_cec.Operand.Headed.Digital.{digital_service_id}
use linux_cec.Operand.Structs.Services.{analogue_service_id}
use linux_cec.Operand.Flags.{all_device_types, recording_sequence}
use linux_cec.Operand.Structs.Timers.{duration, time}
use linux_cec.Operand.Enums.Date.{month_of_year, day_of_month}
use linux_cec.Operand.Enums.Recording.{timer_cleared_status_data, record_status_info}
use linux_cec.Operand.Primitive.{enum_operand}
use linux_cec.Operand.Headed.Record.{external_source, record_source}
use linux_cec.Operand.Newtype.{vendor_id, physical_address}
use linux_cec.Operand.Fields.{nil, field, Curried}
use linux_cec.MessageEnum.{unit, named, fields_of, Variant}

abbrev pub variant : Opcode → Variant
variant op_active_source = named (field physical_address nil)
variant op_image_view_on = unit
variant op_text_view_on = unit
variant op_inactive_source = named (field physical_address nil)
variant op_request_active_source = unit
variant op_routing_change = named (field physical_address (field physical_address nil))
variant op_routing_information = named (field physical_address nil)
variant op_set_stream_path = named (field physical_address nil)
variant op_standby = unit
variant op_record_off = unit
variant op_record_on = named (field record_source nil)
variant op_record_status = named (field (enum_operand record_status_info) nil)
variant op_record_tv_screen = unit
variant op_clear_analogue_timer = named (
    field (enum_operand day_of_month) (
      field (enum_operand month_of_year)
        (field time (field duration (field recording_sequence (field analogue_service_id nil))))))
variant op_clear_digital_timer = named (
    field (enum_operand day_of_month) (
      field (enum_operand month_of_year)
        (field time (field duration (field recording_sequence (field digital_service_id nil))))))
variant op_clear_ext_timer = named (
    field (enum_operand day_of_month) (
      field (enum_operand month_of_year)
        (field time (field duration (field recording_sequence (field external_source nil))))))
variant op_set_analogue_timer = named (
    field (enum_operand day_of_month) (
      field (enum_operand month_of_year)
        (field time (field duration (field recording_sequence (field analogue_service_id nil))))))
variant op_set_digital_timer = named (
    field (enum_operand day_of_month) (
      field (enum_operand month_of_year)
        (field time (field duration (field recording_sequence (field digital_service_id nil))))))
variant op_set_ext_timer = named (
    field (enum_operand day_of_month) (
      field (enum_operand month_of_year)
        (field time (field duration (field recording_sequence (field external_source nil))))))
variant op_set_timer_program_title = named (field (bytes_operand 14) nil)
variant op_timer_cleared_status = named (field (enum_operand timer_cleared_status_data) nil)
variant op_timer_status = named (field timer_status_data nil)
variant op_cec_version = named (field (enum_operand version) nil)
variant op_get_cec_version = unit
variant op_give_physical_addr = unit
variant op_get_menu_language = unit
variant op_report_physical_addr =
    named (field physical_address (field (enum_operand primary_device_type) nil))
variant op_set_menu_language = named (field (array 3) nil)
variant op_deck_control = named (field (enum_operand deck_control_mode) nil)
variant op_deck_status = named (field (enum_operand deck_info) nil)
variant op_give_deck_status = named (field (enum_operand status_request) nil)
variant op_play = named (field (enum_operand play_mode) nil)
variant op_give_tuner_device_status = named (field (enum_operand status_request) nil)
variant op_select_analogue_service = named (field analogue_service_id nil)
variant op_select_digital_service = named (field digital_service_id nil)
variant op_tuner_device_status = named (field tuner_device_info nil)
variant op_tuner_step_decrement = unit
variant op_tuner_step_increment = unit
variant op_device_vendor_id = named (field vendor_id nil)
variant op_give_device_vendor_id = unit
variant op_vendor_command = named (field (bytes_operand 14) nil)
variant op_vendor_command_with_id = named (field vendor_id (field (bytes_operand 11) nil))
variant op_vendor_remote_button_down = named (field (bytes_operand 14) nil)
variant op_vendor_remote_button_up = unit
variant op_set_osd_string =
    named (field (enum_operand display_control) (field (bytes_operand 13) nil))
variant op_give_osd_name = unit
variant op_set_osd_name = named (field (bytes_operand 14) nil)
variant op_menu_request = named (field (enum_operand menu_request_type) nil)
variant op_menu_status = named (field (enum_operand menu_state) nil)
variant op_user_control_pressed = named (field ui_command nil)
variant op_user_control_released = unit
variant op_give_device_power_status = unit
variant op_report_power_status = named (field (enum_operand power_status) nil)
variant op_feature_abort = named (field u8 (field (enum_operand abort_reason) nil))
variant op_abort = unit
variant op_give_audio_status = unit
variant op_give_system_audio_mode_status = unit
variant op_report_audio_status = named (field audio_status nil)
variant op_report_short_audio_descriptor = named (field (bounded_buffer descriptor_element 4) nil)
variant op_request_short_audio_descriptor = named (field (bounded_buffer format_element 4) nil)
variant op_set_system_audio_mode = named (field bool nil)
variant op_system_audio_mode_request = named (field physical_address nil)
variant op_system_audio_mode_status = named (field bool nil)
variant op_set_audio_rate = named (field (enum_operand audio_rate) nil)
variant op_initiate_arc = unit
variant op_report_arc_initiated = unit
variant op_report_arc_terminated = unit
variant op_request_arc_initiation = unit
variant op_request_arc_termination = unit
variant op_terminate_arc = unit
variant op_cdc_message = named (field physical_address (field cdc_message_operand nil))
variant op_report_features = named (
    field (enum_operand version)
      (field all_device_types (field rc_profile (field device_features nil))))
variant op_give_features = unit
variant op_request_current_latency = named (field physical_address nil)
variant op_report_current_latency =
    named (field physical_address (field delay (field latency_flags (field (optional delay) nil))))
variant op_set_audio_volume_level = named (field audio_volume_level nil)

abbrev pub build : (o : Opcode) → Curried (fields_of (variant o)) Message
build op_active_source = active_source
build op_image_view_on = image_view_on
build op_text_view_on = text_view_on
build op_inactive_source = inactive_source
build op_request_active_source = request_active_source
build op_routing_change = routing_change
build op_routing_information = routing_information
build op_set_stream_path = set_stream_path
build op_standby = standby
build op_record_off = record_off
build op_record_on = record_on
build op_record_status = record_status
build op_record_tv_screen = record_tv_screen
build op_clear_analogue_timer = clear_analogue_timer
build op_clear_digital_timer = clear_digital_timer
build op_clear_ext_timer = clear_ext_timer
build op_set_analogue_timer = set_analogue_timer
build op_set_digital_timer = set_digital_timer
build op_set_ext_timer = set_ext_timer
build op_set_timer_program_title = set_timer_program_title
build op_timer_cleared_status = timer_cleared_status
build op_timer_status = timer_status
build op_cec_version = cec_version
build op_get_cec_version = get_cec_version
build op_give_physical_addr = give_physical_addr
build op_get_menu_language = get_menu_language
build op_report_physical_addr = report_physical_addr
build op_set_menu_language = set_menu_language
build op_deck_control = deck_control
build op_deck_status = deck_status
build op_give_deck_status = give_deck_status
build op_play = play
build op_give_tuner_device_status = give_tuner_device_status
build op_select_analogue_service = select_analogue_service
build op_select_digital_service = select_digital_service
build op_tuner_device_status = tuner_device_status
build op_tuner_step_decrement = tuner_step_decrement
build op_tuner_step_increment = tuner_step_increment
build op_device_vendor_id = device_vendor_id
build op_give_device_vendor_id = give_device_vendor_id
build op_vendor_command = vendor_command
build op_vendor_command_with_id = vendor_command_with_id
build op_vendor_remote_button_down = vendor_remote_button_down
build op_vendor_remote_button_up = vendor_remote_button_up
build op_set_osd_string = set_osd_string
build op_give_osd_name = give_osd_name
build op_set_osd_name = set_osd_name
build op_menu_request = menu_request
build op_menu_status = menu_status
build op_user_control_pressed = user_control_pressed
build op_user_control_released = user_control_released
build op_give_device_power_status = give_device_power_status
build op_report_power_status = report_power_status
build op_feature_abort = feature_abort
build op_abort = abort
build op_give_audio_status = give_audio_status
build op_give_system_audio_mode_status = give_system_audio_mode_status
build op_report_audio_status = report_audio_status
build op_report_short_audio_descriptor = report_short_audio_descriptor
build op_request_short_audio_descriptor = request_short_audio_descriptor
build op_set_system_audio_mode = set_system_audio_mode
build op_system_audio_mode_request = system_audio_mode_request
build op_system_audio_mode_status = system_audio_mode_status
build op_set_audio_rate = set_audio_rate
build op_initiate_arc = initiate_arc
build op_report_arc_initiated = report_arc_initiated
build op_report_arc_terminated = report_arc_terminated
build op_request_arc_initiation = request_arc_initiation
build op_request_arc_termination = request_arc_termination
build op_terminate_arc = terminate_arc
build op_cdc_message = cdc_message
build op_report_features = report_features
build op_give_features = give_features
build op_request_current_latency = request_current_latency
build op_report_current_latency = report_current_latency
build op_set_audio_volume_level = set_audio_volume_level
