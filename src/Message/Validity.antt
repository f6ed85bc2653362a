-- ===== src/Message/Validity.antt =====
-- What makes the fields of a CEC message valid (linux-cec/src/message.rs).
use linux_cec.Operand.Optional.{Optionally}
use linux_cec.Operand.Tagged.Features.{IsDeviceFeatures, IsRcProfile}
use linux_cec.Cdc.Message.Laws.{IsCdcMessage}
use linux_cec.Operand.UiCommand.Laws.{IsUiCommand}
use linux_cec.Operand.Tuner.Laws.{IsTunerDeviceInfo}
use linux_cec.Operand.Headed.Timer.Laws.{IsTimerStatus}
use linux_cec.Operand.Buffer.Bytes.{u8_element}
use linux_cec.Operand.Buffer.Laws.{IsBuffer}
use linux_cec.Operand.Headed.DigitalLaws.{IsDigitalServiceId}
use linux_cec.Operand.Structs.Services.{IsAnalogueServiceId}
use linux_cec.Operand.Structs.Timers.{IsDuration, IsTime}
use linux_cec.Operand.Primitive.{Any}
use linux_cec.Operand.Headed.Record.{IsExternalSource, IsRecordSource}
use linux_cec.Operand.Newtype.{IsVendorId, IsAddress}
use linux_cec.Operand.Scalars.{IsArray}
use linux_cec.Message.Data.{format_element, descriptor_element}
use linux_cec.MessageEnum.{fields_of}
use linux_cec.Core.Slice.{IsByte}
use linux_cec.Operand.Ranged.{IsVolume, IsDelay}
use linux_cec.Operand.Bitfields.{AudioFormatIdAndCode}
use linux_cec.Operand.Fields.{Validity}
use linux_cec.Message.Opcode.{
  Opcode, op_active_source, op_image_view_on, op_text_view_on, op_inactive_source,
  op_request_active_source, op_routing_change, op_routing_information, op_set_stream_path,
  op_standby, op_record_off, op_record_on, op_record_status, op_record_tv_screen,
  op_clear_analogue_timer, op_clear_digital_timer, op_clear_ext_timer, op_set_analogue_timer,
  op_set_digital_timer, op_set_ext_timer, op_set_timer_program_title, op_timer_cleared_status,
  op_timer_status, op_cec_version, op_get_cec_version, op_give_physical_addr, op_get_menu_language,
  op_report_physical_addr, op_set_menu_language, op_deck_control, op_deck_status,
  op_give_deck_status, op_play, op_give_tuner_device_status, op_select_analogue_service,
  op_select_digital_service, op_tuner_device_status, op_tuner_step_decrement,
  op_tuner_step_increment, op_device_vendor_id, op_give_device_vendor_id, op_vendor_command,
  op_vendor_command_with_id, op_vendor_remote_button_down, op_vendor_remote_button_up,
  op_set_osd_string, op_give_osd_name, op_set_osd_name, op_menu_request, op_menu_status,
  op_user_control_pressed, op_user_control_released, op_give_device_power_status,
  op_report_power_status, op_feature_abort, op_abort, op_give_audio_status,
  op_give_system_audio_mode_status, op_report_audio_status, op_report_short_audio_descriptor,
  op_request_short_audio_descriptor, op_set_system_audio_mode, op_system_audio_mode_request,
  op_system_audio_mode_status, op_set_audio_rate, op_initiate_arc, op_report_arc_initiated,
  op_report_arc_terminated, op_request_arc_initiation, op_request_arc_termination, op_terminate_arc,
  op_cdc_message, op_report_features, op_give_features, op_request_current_latency,
  op_report_current_latency, op_set_audio_volume_level,
}
use linux_cec.Message.Variants.{variant}

abbrev pub IsFormat : AudioFormatIdAndCode → Type 0
IsFormat a = IsByte a.word

abbrev pub validity : (o : Opcode) → Validity (fields_of (variant o))
validity op_active_source = (IsAddress, tt)
validity op_image_view_on = tt
validity op_text_view_on = tt
validity op_inactive_source = (IsAddress, tt)
validity op_request_active_source = tt
validity op_routing_change = (IsAddress, (IsAddress, tt))
validity op_routing_information = (IsAddress, tt)
validity op_set_stream_path = (IsAddress, tt)
validity op_standby = tt
validity op_record_off = tt
validity op_record_on = (IsRecordSource, tt)
validity op_record_status = (Any, tt)
validity op_record_tv_screen = tt
validity op_clear_analogue_timer =
    (Any, (Any, (IsTime, (IsDuration, ((λ f. IsByte f.bits), (IsAnalogueServiceId, tt))))))
validity op_clear_digital_timer =
    (Any, (Any, (IsTime, (IsDuration, ((λ f. IsByte f.bits), (IsDigitalServiceId, tt))))))
validity op_clear_ext_timer =
    (Any, (Any, (IsTime, (IsDuration, ((λ f. IsByte f.bits), (IsExternalSource, tt))))))
validity op_set_analogue_timer =
    (Any, (Any, (IsTime, (IsDuration, ((λ f. IsByte f.bits), (IsAnalogueServiceId, tt))))))
validity op_set_digital_timer =
    (Any, (Any, (IsTime, (IsDuration, ((λ f. IsByte f.bits), (IsDigitalServiceId, tt))))))
validity op_set_ext_timer =
    (Any, (Any, (IsTime, (IsDuration, ((λ f. IsByte f.bits), (IsExternalSource, tt))))))
validity op_set_timer_program_title = ((IsBuffer u8_element IsByte 14), tt)
validity op_timer_cleared_status = (Any, tt)
validity op_timer_status = (IsTimerStatus, tt)
validity op_cec_version = (Any, tt)
validity op_get_cec_version = tt
validity op_give_physical_addr = tt
validity op_get_menu_language = tt
validity op_report_physical_addr = (IsAddress, (Any, tt))
validity op_set_menu_language = ((IsArray 3), tt)
validity op_deck_control = (Any, tt)
validity op_deck_status = (Any, tt)
validity op_give_deck_status = (Any, tt)
validity op_play = (Any, tt)
validity op_give_tuner_device_status = (Any, tt)
validity op_select_analogue_service = (IsAnalogueServiceId, tt)
validity op_select_digital_service = (IsDigitalServiceId, tt)
validity op_tuner_device_status = (IsTunerDeviceInfo, tt)
validity op_tuner_step_decrement = tt
validity op_tuner_step_increment = tt
validity op_device_vendor_id = (IsVendorId, tt)
validity op_give_device_vendor_id = tt
validity op_vendor_command = ((IsBuffer u8_element IsByte 14), tt)
validity op_vendor_command_with_id = (IsVendorId, ((IsBuffer u8_element IsByte 11), tt))
validity op_vendor_remote_button_down = ((IsBuffer u8_element IsByte 14), tt)
validity op_vendor_remote_button_up = tt
validity op_set_osd_string = (Any, ((IsBuffer u8_element IsByte 13), tt))
validity op_give_osd_name = tt
validity op_set_osd_name = ((IsBuffer u8_element IsByte 14), tt)
validity op_menu_request = (Any, tt)
validity op_menu_status = (Any, tt)
validity op_user_control_pressed = (IsUiCommand, tt)
validity op_user_control_released = tt
validity op_give_device_power_status = tt
validity op_report_power_status = (Any, tt)
validity op_feature_abort = (IsByte, (Any, tt))
validity op_abort = tt
validity op_give_audio_status = tt
validity op_give_system_audio_mode_status = tt
validity op_report_audio_status = ((λ a. IsByte a.word), tt)
validity op_report_short_audio_descriptor = ((IsBuffer descriptor_element (IsArray 3) 4), tt)
validity op_request_short_audio_descriptor = ((IsBuffer format_element IsFormat 4), tt)
validity op_set_system_audio_mode = ((λ b. Unit {0}), tt)
validity op_system_audio_mode_request = (IsAddress, tt)
validity op_system_audio_mode_status = ((λ b. Unit {0}), tt)
validity op_set_audio_rate = (Any, tt)
validity op_initiate_arc = tt
validity op_report_arc_initiated = tt
validity op_report_arc_terminated = tt
validity op_request_arc_initiation = tt
validity op_request_arc_termination = tt
validity op_terminate_arc = tt
validity op_cdc_message = (IsAddress, (IsCdcMessage, tt))
validity op_report_features = (Any, ((λ f. IsByte f.bits), (IsRcProfile, (IsDeviceFeatures, tt))))
validity op_give_features = tt
validity op_request_current_latency = (IsAddress, tt)
validity op_report_current_latency =
    (IsAddress, (IsDelay, ((λ a. IsByte a.word), ((Optionally IsDelay), tt))))
validity op_set_audio_volume_level = (IsVolume, tt)
