-- ===== src/Message/Lawful.antt =====
-- The codecs of the fields of a CEC message are lawful (linux-cec/src/message.rs).
use linux_cec.Operand.Enums.Audio.{audio_rate-IsEnum, audio_rate}
use linux_cec.Operand.Enums.Menu.{
  menu_state-IsEnum, menu_state, menu_request_type-IsEnum, menu_request_type,
  display_control-IsEnum, display_control,
}
use linux_cec.Operand.Enums.Deck.{
  play_mode-IsEnum, play_mode, status_request-IsEnum, status_request, deck_info-IsEnum, deck_info,
  deck_control_mode-IsEnum, deck_control_mode,
}
use linux_cec.Operand.Enums.Device.{
  abort_reason-IsEnum, abort_reason, power_status-IsEnum, power_status, primary_device_type-IsEnum,
  primary_device_type, version-IsEnum, version,
}
use linux_cec.Operand.Optional.{optional-Lawful}
use linux_cec.Operand.Tagged.Features.{device_features-Prefixed, rc_profile-Prefixed}
use linux_cec.Cdc.Message.Laws.{cdc_message_operand-Lawful}
use linux_cec.Operand.Headed.External.{external_source-Lawful}
use linux_cec.Operand.UiCommand.Laws.{ui_command-Lawful}
use linux_cec.Operand.Tuner.Laws.{tuner_device_info-Lawful}
use linux_cec.Operand.Flags.{all_device_types-Prefixed, recording_sequence-Prefixed}
use linux_cec.Operand.Headed.Timer.Laws.{timer_status_data-Lawful}
use linux_cec.Operand.Buffer.Bytes.{u8_element-IsElement, u8_element}
use linux_cec.Operand.Buffer.Laws.{bounded_buffer-Lawful}
use linux_cec.Operand.Headed.DigitalLaws.{digital_service_id-Prefixed}
use linux_cec.Operand.Structs.Services.{analogue_service_id-Prefixed}
use linux_cec.Operand.Enums.Date.{
  month_of_year-IsEnum, month_of_year, day_of_month-IsEnum, day_of_month,
}
use linux_cec.Operand.Structs.Timers.{duration-Prefixed, time-Prefixed}
use linux_cec.Operand.Enums.Recording.{
  timer_cleared_status_data-IsEnum, timer_cleared_status_data, record_status_info-IsEnum,
  record_status_info,
}
use linux_cec.Operand.Primitive.{enum_operand-Prefixed}
use linux_cec.Operand.Headed.Record.{record_source-Prefixed}
use linux_cec.Operand.Newtype.{vendor_id-Prefixed, physical_address-Prefixed}
use linux_cec.Operand.Scalars.{bool-Prefixed, u8-Prefixed, array, array-Prefixed, IsArray}
use linux_cec.Message.Data.{format_element, descriptor_element}
use linux_cec.MessageEnum.{fields_of}
use linux_cec.Core.Slice.{IsByte}
use linux_cec.Operand.Ranged.{audio_volume_level-Prefixed, delay-Prefixed, delay, IsDelay, Delay}
use linux_cec.Operand.Bitfields.{
  latency_flags-Prefixed, audio_status-Prefixed, audio_format_id_and_code-Prefixed,
}
use linux_cec.Operand.OneByte.{one_byte}
use linux_cec.Operand.Buffer.Loop.{IsElement}
use linux_cec.Operand.Fields.{InitPrefixed}
use linux_cec.Message.Opcode.{
  Opcode, op_active_source, op_image_view_on, op_text_view_on, op_inactive_source,
  op_request_active_source, op_routing_change, op_routing_information, op_set_stream_path,
  op_standby, op_record_off, op_record_on, op_record_status, op_record_tv_screen,
  op_clear_analogue_timer, op_clear_digital_timer, op_clear_ext_timer, op_set_analogue_timer,
  op_set_digital_timer, op_set_ext_timer, op_set_timer_program_title, op_timer_cleared_status,
  op_timer_status, op_cec_version, op_get_cec_version, op_give_physical_addr, op_get_menu_language,
  op_report_physical_addr, op_set_menu_language, op_deck_control, op_deck_status,
  op_give_deck_status, op_play, op_give_tuner_device_status, op_select_analogue_service,
  op_select_digital_service, op_tuner_device_status, op_tuner_step_decrement,
  op_tuner_step_increment, op_device_vendor_id, op_give_device_vendor_id, op_vendor_command,
  op_vendor_command_with_id, op_vendor_remote_button_down, op_vendor_remote_button_up,
  op_set_osd_string, op_give_osd_name, op_set_osd_name, op_menu_request, op_menu_status,
  op_user_control_pressed, op_user_control_released, op_give_device_power_status,
  op_report_power_status, op_feature_abort, op_abort, op_give_audio_status,
  op_give_system_audio_mode_status, op_report_audio_status, op_report_short_audio_descriptor,
  op_request_short_audio_descriptor, op_set_system_audio_mode, op_system_audio_mode_request,
  op_system_audio_mode_status, op_set_audio_rate, op_initiate_arc, op_report_arc_initiated,
  op_report_arc_terminated, op_request_arc_initiation, op_request_arc_termination, op_terminate_arc,
  op_cdc_message, op_report_features, op_give_features, op_request_current_latency,
  op_report_current_latency, op_set_audio_volume_level,
}
use linux_cec.Message.Variants.{variant}
use linux_cec.Prelude.{arith, ◌≤◌, refl}
use linux_cec.Message.Validity.{validity, IsFormat}

descriptor_element-IsElement : IsElement descriptor_element (IsArray 3)
descriptor_element-IsElement = record {
  prefixed = array-Prefixed 3;
  size_pos = omega arith;
  len-eq-size = λ x. unfold array in refl;
}

format_element-IsElement : IsElement format_element IsFormat
format_element-IsElement = record {
  prefixed = audio_format_id_and_code-Prefixed;
  size_pos = omega arith;
  len-eq-size = λ x. unfold one_byte in refl;
}

delay_not_empty : (d : Delay) → IsDelay d → 1 ≤ delay.len d
unfolding one_byte
delay_not_empty d h = omega arith

pub lawful : (o : Opcode) → InitPrefixed (fields_of (variant o)) (validity o)
lawful op_active_source = physical_address-Prefixed.lawful
lawful op_image_view_on = tt
lawful op_text_view_on = tt
lawful op_inactive_source = physical_address-Prefixed.lawful
lawful op_request_active_source = tt
lawful op_routing_change = (physical_address-Prefixed, physical_address-Prefixed.lawful)
lawful op_routing_information = physical_address-Prefixed.lawful
lawful op_set_stream_path = physical_address-Prefixed.lawful
lawful op_standby = tt
lawful op_record_off = tt
lawful op_record_on = record_source-Prefixed.lawful
lawful op_record_status =
    (enum_operand-Prefixed record_status_info record_status_info-IsEnum).lawful
lawful op_record_tv_screen = tt
lawful op_clear_analogue_timer = (
  enum_operand-Prefixed day_of_month day_of_month-IsEnum,
  (
    enum_operand-Prefixed month_of_year month_of_year-IsEnum,
    (
      time-Prefixed,
      (duration-Prefixed, (recording_sequence-Prefixed, analogue_service_id-Prefixed.lawful)),
    ),
  ),
)
lawful op_clear_digital_timer = (
  enum_operand-Prefixed day_of_month day_of_month-IsEnum,
  (
    enum_operand-Prefixed month_of_year month_of_year-IsEnum,
    (
      time-Prefixed,
      (duration-Prefixed, (recording_sequence-Prefixed, digital_service_id-Prefixed.lawful)),
    ),
  ),
)
lawful op_clear_ext_timer = (
  enum_operand-Prefixed day_of_month day_of_month-IsEnum,
  (
    enum_operand-Prefixed month_of_year month_of_year-IsEnum,
    (time-Prefixed, (duration-Prefixed, (recording_sequence-Prefixed, external_source-Lawful))),
  ),
)
lawful op_set_analogue_timer = (
  enum_operand-Prefixed day_of_month day_of_month-IsEnum,
  (
    enum_operand-Prefixed month_of_year month_of_year-IsEnum,
    (
      time-Prefixed,
      (duration-Prefixed, (recording_sequence-Prefixed, analogue_service_id-Prefixed.lawful)),
    ),
  ),
)
lawful op_set_digital_timer = (
  enum_operand-Prefixed day_of_month day_of_month-IsEnum,
  (
    enum_operand-Prefixed month_of_year month_of_year-IsEnum,
    (
      time-Prefixed,
      (duration-Prefixed, (recording_sequence-Prefixed, digital_service_id-Prefixed.lawful)),
    ),
  ),
)
lawful op_set_ext_timer = (
  enum_operand-Prefixed day_of_month day_of_month-IsEnum,
  (
    enum_operand-Prefixed month_of_year month_of_year-IsEnum,
    (time-Prefixed, (duration-Prefixed, (recording_sequence-Prefixed, external_source-Lawful))),
  ),
)
lawful op_set_timer_program_title = bounded_buffer-Lawful u8_element IsByte u8_element-IsElement 14
lawful op_timer_cleared_status =
    (enum_operand-Prefixed timer_cleared_status_data timer_cleared_status_data-IsEnum).lawful
lawful op_timer_status = timer_status_data-Lawful
lawful op_cec_version = (enum_operand-Prefixed version version-IsEnum).lawful
lawful op_get_cec_version = tt
lawful op_give_physical_addr = tt
lawful op_get_menu_language = tt
lawful op_report_physical_addr = (
  physical_address-Prefixed,
  (enum_operand-Prefixed primary_device_type primary_device_type-IsEnum).lawful,
)
lawful op_set_menu_language = (array-Prefixed 3).lawful
lawful op_deck_control = (enum_operand-Prefixed deck_control_mode deck_control_mode-IsEnum).lawful
lawful op_deck_status = (enum_operand-Prefixed deck_info deck_info-IsEnum).lawful
lawful op_give_deck_status = (enum_operand-Prefixed status_request status_request-IsEnum).lawful
lawful op_play = (enum_operand-Prefixed play_mode play_mode-IsEnum).lawful
lawful op_give_tuner_device_status =
    (enum_operand-Prefixed status_request status_request-IsEnum).lawful
lawful op_select_analogue_service = analogue_service_id-Prefixed.lawful
lawful op_select_digital_service = digital_service_id-Prefixed.lawful
lawful op_tuner_device_status = tuner_device_info-Lawful
lawful op_tuner_step_decrement = tt
lawful op_tuner_step_increment = tt
lawful op_device_vendor_id = vendor_id-Prefixed.lawful
lawful op_give_device_vendor_id = tt
lawful op_vendor_command = bounded_buffer-Lawful u8_element IsByte u8_element-IsElement 14
lawful op_vendor_command_with_id =
    (vendor_id-Prefixed, bounded_buffer-Lawful u8_element IsByte u8_element-IsElement 11)
lawful op_vendor_remote_button_down =
    bounded_buffer-Lawful u8_element IsByte u8_element-IsElement 14
lawful op_vendor_remote_button_up = tt
lawful op_set_osd_string = (
  enum_operand-Prefixed display_control display_control-IsEnum,
  bounded_buffer-Lawful u8_element IsByte u8_element-IsElement 13,
)
lawful op_give_osd_name = tt
lawful op_set_osd_name = bounded_buffer-Lawful u8_element IsByte u8_element-IsElement 14
lawful op_menu_request = (enum_operand-Prefixed menu_request_type menu_request_type-IsEnum).lawful
lawful op_menu_status = (enum_operand-Prefixed menu_state menu_state-IsEnum).lawful
lawful op_user_control_pressed = ui_command-Lawful
lawful op_user_control_released = tt
lawful op_give_device_power_status = tt
lawful op_report_power_status = (enum_operand-Prefixed power_status power_status-IsEnum).lawful
lawful op_feature_abort =
    (u8-Prefixed, (enum_operand-Prefixed abort_reason abort_reason-IsEnum).lawful)
lawful op_abort = tt
lawful op_give_audio_status = tt
lawful op_give_system_audio_mode_status = tt
lawful op_report_audio_status = audio_status-Prefixed.lawful
lawful op_report_short_audio_descriptor =
    bounded_buffer-Lawful descriptor_element (IsArray 3) descriptor_element-IsElement 4
lawful op_request_short_audio_descriptor =
    bounded_buffer-Lawful format_element IsFormat format_element-IsElement 4
lawful op_set_system_audio_mode = bool-Prefixed.lawful
lawful op_system_audio_mode_request = physical_address-Prefixed.lawful
lawful op_system_audio_mode_status = bool-Prefixed.lawful
lawful op_set_audio_rate = (enum_operand-Prefixed audio_rate audio_rate-IsEnum).lawful
lawful op_initiate_arc = tt
lawful op_report_arc_initiated = tt
lawful op_report_arc_terminated = tt
lawful op_request_arc_initiation = tt
lawful op_request_arc_termination = tt
lawful op_terminate_arc = tt
lawful op_cdc_message = (physical_address-Prefixed, cdc_message_operand-Lawful)
lawful op_report_features = (
  enum_operand-Prefixed version version-IsEnum,
  (all_device_types-Prefixed, (rc_profile-Prefixed, device_features-Prefixed.lawful)),
)
lawful op_give_features = tt
lawful op_request_current_latency = physical_address-Prefixed.lawful
lawful op_report_current_latency = (
  physical_address-Prefixed,
  (
    delay-Prefixed,
    (latency_flags-Prefixed, optional-Lawful delay IsDelay delay-Prefixed.lawful delay_not_empty),
  ),
)
lawful op_set_audio_volume_level = audio_volume_level-Prefixed.lawful
