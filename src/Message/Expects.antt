-- ===== src/Message/Expects.antt =====
-- What the check of the length expects of each CEC message (linux-cec/src/message.rs).
use linux_cec.Operand.Enums.Audio.{audio_rate}
use linux_cec.Operand.Scalars.{IsArray}
use linux_cec.Operand.Enums.Deck.{play_mode, status_request, deck_info, deck_control_mode}
use linux_cec.Operand.Enums.Device.{abort_reason, power_status, primary_device_type, version}
use linux_cec.Operand.Headed.Record.{external_address, plug, ExternalSource, external_source}
use linux_cec.Core.Slice.{IsByte}
use linux_cec.Operand.Structs.{derive_struct}
use linux_cec.Operand.Buffer.Bytes.{u8_element}
use linux_cec.Operand.Tuner.{digital_id, analogue_id, service_len, ServiceId}
use linux_cec.Operand.OneByte.{one_byte}
use linux_cec.Core.Range.{only, admits}
use linux_cec.Operand.Enums.Date.{month_of_year, day_of_month}
use linux_cec.Operand.Fields.{size}
use linux_cec.Operand.Enums.Recording.{timer_cleared_status_data, record_status_info}
use linux_cec.MessageEnum.{fold_step, expected_len, fields_of}
use linux_cec.Operand.Enums.Menu.{menu_request_type, display_control, menu_state}
use linux_cec.MessageEnum.Expected.{expected_len-AllLonger, AllLonger, ExpectsVariant}
use linux_cec.Message.Opcode.{
  Opcode, op_active_source, op_image_view_on, op_text_view_on, op_inactive_source,
  op_request_active_source, op_routing_change, op_routing_information, op_set_stream_path,
  op_standby, op_record_off, op_record_on, op_record_status, op_record_tv_screen,
  op_clear_analogue_timer, op_clear_digital_timer, op_clear_ext_timer, op_set_analogue_timer,
  op_set_digital_timer, op_set_ext_timer, op_set_timer_program_title, op_timer_cleared_status,
  op_timer_status, op_cec_version, op_get_cec_version, op_give_physical_addr, op_get_menu_language,
  op_report_physical_addr, op_set_menu_language, op_deck_control, op_deck_status,
  op_give_deck_status, op_play, op_give_tuner_device_status, op_select_analogue_service,
  op_select_digital_service, op_tuner_device_status, op_tuner_step_decrement,
  op_tuner_step_increment, op_device_vendor_id, op_give_device_vendor_id, op_vendor_command,
  op_vendor_command_with_id, op_vendor_remote_button_down, op_vendor_remote_button_up,
  op_set_osd_string, op_give_osd_name, op_set_osd_name, op_menu_request, op_menu_status,
  op_user_control_pressed, op_user_control_released, op_give_device_power_status,
  op_report_power_status, op_feature_abort, op_abort, op_give_audio_status,
  op_give_system_audio_mode_status, op_report_audio_status, op_report_short_audio_descriptor,
  op_request_short_audio_descriptor, op_set_system_audio_mode, op_system_audio_mode_request,
  op_system_audio_mode_status, op_set_audio_rate, op_initiate_arc, op_report_arc_initiated,
  op_report_arc_terminated, op_request_arc_initiation, op_request_arc_termination, op_terminate_arc,
  op_cdc_message, op_report_features, op_give_features, op_request_current_latency,
  op_report_current_latency, op_set_audio_volume_level,
}
use linux_cec.Message.Data.{descriptor_element, format_element}
use linux_cec.Message.Variants.{variant}
use linux_cec.Message.Validity.{IsFormat, validity}
use linux_cec.Message.Lengths.{
  enum_operand-Longer, bounded_buffer-Longer, physical_address-Longer, vendor_id-Longer,
  record_source-Longer, time-Longer, duration-Longer, recording_sequence-Longer,
  analogue_service_id-Longer, timer_status_data-Longer, ui_command-Longer,
  cdc_message_operand-Longer, u8-Longer, bool-Longer, audio_status-Longer, latency_flags-Longer,
  all_device_types-Longer, rc_profile-Longer, device_features-Longer, delay-Longer,
  audio_volume_level-Longer, array-Longer, optional-delay-Longer, digital_service_id-Longer,
}
use linux_cec.Prelude.{true, ◌≡◌, ◌+◌, [], ◌∷◌, refl}

-- A tuner status is six or nine bytes long, and the timer of an external source nine or ten.
expects_tuner : ExpectsVariant (variant op_tuner_device_status) (validity op_tuner_device_status)
unfolding expected_len fold_step size admits
expects_tuner = (only (6 ∷ 9 ∷ []), refl, λ t p. tuner_admitted t.0.service)
  where
    tuner_admitted : (s : ServiceId) → admits (only (6 ∷ 9 ∷ [])) (1 + (service_len s + 0)) ≡ true
    tuner_admitted (analogue_id a) = refl
    tuner_admitted (digital_id d) = refl

expects_external : ExpectsVariant (variant op_set_ext_timer) (validity op_set_ext_timer)
unfolding expected_len fold_step size admits one_byte derive_struct external_source
expects_external = (only (9 ∷ 10 ∷ []), refl, λ t p. external_admitted t.1.1.1.1.1.0)
  where
    external_admitted :
        (s : ExternalSource)
        → admits
            (only (9 ∷ 10 ∷ []))
            (1 + (1 + (1 + (2 + (2 + (1 + (external_source.len s + 0)))))))
          ≡ true
    external_admitted (plug n) = refl
    external_admitted (external_address a) = refl

-- An opcode expects what the fold over its fields finds.
from_fields :
    (o : Opcode)
    → AllLonger (fields_of (variant o)) (validity o)
    → ExpectsVariant (variant o) (validity o)
from_fields o = expected_len-AllLonger (variant o) (validity o)

pub expects : (o : Opcode) → ExpectsVariant (variant o) (validity o)
expects op_active_source = from_fields op_active_source (physical_address-Longer, tt)
expects op_image_view_on = from_fields op_image_view_on tt
expects op_text_view_on = from_fields op_text_view_on tt
expects op_inactive_source = from_fields op_inactive_source (physical_address-Longer, tt)
expects op_request_active_source = from_fields op_request_active_source tt
expects op_routing_change =
    from_fields op_routing_change (physical_address-Longer, (physical_address-Longer, tt))
expects op_routing_information = from_fields op_routing_information (physical_address-Longer, tt)
expects op_set_stream_path = from_fields op_set_stream_path (physical_address-Longer, tt)
expects op_standby = from_fields op_standby tt
expects op_record_off = from_fields op_record_off tt
expects op_record_on = from_fields op_record_on (record_source-Longer, tt)
expects op_record_status = from_fields op_record_status (enum_operand-Longer record_status_info, tt)
expects op_record_tv_screen = from_fields op_record_tv_screen tt
expects op_clear_analogue_timer = from_fields op_clear_analogue_timer (
  enum_operand-Longer day_of_month,
  (
    enum_operand-Longer month_of_year,
    (time-Longer, (duration-Longer, (recording_sequence-Longer, (analogue_service_id-Longer, tt)))),
  ),
)
expects op_clear_digital_timer = from_fields op_clear_digital_timer (
  enum_operand-Longer day_of_month,
  (
    enum_operand-Longer month_of_year,
    (time-Longer, (duration-Longer, (recording_sequence-Longer, (digital_service_id-Longer, tt)))),
  ),
)
expects op_clear_ext_timer = expects_external
expects op_set_analogue_timer = from_fields op_set_analogue_timer (
  enum_operand-Longer day_of_month,
  (
    enum_operand-Longer month_of_year,
    (time-Longer, (duration-Longer, (recording_sequence-Longer, (analogue_service_id-Longer, tt)))),
  ),
)
expects op_set_digital_timer = from_fields op_set_digital_timer (
  enum_operand-Longer day_of_month,
  (
    enum_operand-Longer month_of_year,
    (time-Longer, (duration-Longer, (recording_sequence-Longer, (digital_service_id-Longer, tt)))),
  ),
)
expects op_set_ext_timer = expects_external
expects op_set_timer_program_title =
    from_fields op_set_timer_program_title (bounded_buffer-Longer u8_element IsByte 14, tt)
expects op_timer_cleared_status =
    from_fields op_timer_cleared_status (enum_operand-Longer timer_cleared_status_data, tt)
expects op_timer_status = from_fields op_timer_status (timer_status_data-Longer, tt)
expects op_cec_version = from_fields op_cec_version (enum_operand-Longer version, tt)
expects op_get_cec_version = from_fields op_get_cec_version tt
expects op_give_physical_addr = from_fields op_give_physical_addr tt
expects op_get_menu_language = from_fields op_get_menu_language tt
expects op_report_physical_addr =
    from_fields op_report_physical_addr
      (physical_address-Longer, (enum_operand-Longer primary_device_type, tt))
expects op_set_menu_language = from_fields op_set_menu_language (array-Longer, tt)
expects op_deck_control = from_fields op_deck_control (enum_operand-Longer deck_control_mode, tt)
expects op_deck_status = from_fields op_deck_status (enum_operand-Longer deck_info, tt)
expects op_give_deck_status =
    from_fields op_give_deck_status (enum_operand-Longer status_request, tt)
expects op_play = from_fields op_play (enum_operand-Longer play_mode, tt)
expects op_give_tuner_device_status =
    from_fields op_give_tuner_device_status (enum_operand-Longer status_request, tt)
expects op_select_analogue_service =
    from_fields op_select_analogue_service (analogue_service_id-Longer, tt)
expects op_select_digital_service =
    from_fields op_select_digital_service (digital_service_id-Longer, tt)
expects op_tuner_device_status = expects_tuner
expects op_tuner_step_decrement = from_fields op_tuner_step_decrement tt
expects op_tuner_step_increment = from_fields op_tuner_step_increment tt
expects op_device_vendor_id = from_fields op_device_vendor_id (vendor_id-Longer, tt)
expects op_give_device_vendor_id = from_fields op_give_device_vendor_id tt
expects op_vendor_command =
    from_fields op_vendor_command (bounded_buffer-Longer u8_element IsByte 14, tt)
expects op_vendor_command_with_id =
    from_fields op_vendor_command_with_id
      (vendor_id-Longer, (bounded_buffer-Longer u8_element IsByte 11, tt))
expects op_vendor_remote_button_down =
    from_fields op_vendor_remote_button_down (bounded_buffer-Longer u8_element IsByte 14, tt)
expects op_vendor_remote_button_up = from_fields op_vendor_remote_button_up tt
expects op_set_osd_string =
    from_fields op_set_osd_string
      (enum_operand-Longer display_control, (bounded_buffer-Longer u8_element IsByte 13, tt))
expects op_give_osd_name = from_fields op_give_osd_name tt
expects op_set_osd_name =
    from_fields op_set_osd_name (bounded_buffer-Longer u8_element IsByte 14, tt)
expects op_menu_request = from_fields op_menu_request (enum_operand-Longer menu_request_type, tt)
expects op_menu_status = from_fields op_menu_status (enum_operand-Longer menu_state, tt)
expects op_user_control_pressed = from_fields op_user_control_pressed (ui_command-Longer, tt)
expects op_user_control_released = from_fields op_user_control_released tt
expects op_give_device_power_status = from_fields op_give_device_power_status tt
expects op_report_power_status =
    from_fields op_report_power_status (enum_operand-Longer power_status, tt)
expects op_feature_abort =
    from_fields op_feature_abort (u8-Longer, (enum_operand-Longer abort_reason, tt))
expects op_abort = from_fields op_abort tt
expects op_give_audio_status = from_fields op_give_audio_status tt
expects op_give_system_audio_mode_status = from_fields op_give_system_audio_mode_status tt
expects op_report_audio_status = from_fields op_report_audio_status (audio_status-Longer, tt)
expects op_report_short_audio_descriptor =
    from_fields op_report_short_audio_descriptor
      (bounded_buffer-Longer descriptor_element (IsArray 3) 4, tt)
expects op_request_short_audio_descriptor =
    from_fields op_request_short_audio_descriptor
      (bounded_buffer-Longer format_element IsFormat 4, tt)
expects op_set_system_audio_mode = from_fields op_set_system_audio_mode (bool-Longer, tt)
expects op_system_audio_mode_request =
    from_fields op_system_audio_mode_request (physical_address-Longer, tt)
expects op_system_audio_mode_status = from_fields op_system_audio_mode_status (bool-Longer, tt)
expects op_set_audio_rate = from_fields op_set_audio_rate (enum_operand-Longer audio_rate, tt)
expects op_initiate_arc = from_fields op_initiate_arc tt
expects op_report_arc_initiated = from_fields op_report_arc_initiated tt
expects op_report_arc_terminated = from_fields op_report_arc_terminated tt
expects op_request_arc_initiation = from_fields op_request_arc_initiation tt
expects op_request_arc_termination = from_fields op_request_arc_termination tt
expects op_terminate_arc = from_fields op_terminate_arc tt
expects op_cdc_message =
    from_fields op_cdc_message (physical_address-Longer, (cdc_message_operand-Longer, tt))
expects op_report_features = from_fields op_report_features (
  enum_operand-Longer version,
  (all_device_types-Longer, (rc_profile-Longer, (device_features-Longer, tt))),
)
expects op_give_features = from_fields op_give_features tt
expects op_request_current_latency =
    from_fields op_request_current_latency (physical_address-Longer, tt)
expects op_report_current_latency =
    from_fields op_report_current_latency
      (physical_address-Longer, (delay-Longer, (latency_flags-Longer, (optional-delay-Longer, tt))))
expects op_set_audio_volume_level =
    from_fields op_set_audio_volume_level (audio_volume_level-Longer, tt)
