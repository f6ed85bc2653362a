-- ===== src/Message/Data.antt =====
-- The CEC `Message` (linux-cec/src/message.rs).
use linux_cec.Cdc.Message.{Message as CdcMessage}
use linux_cec.Message.Opcode.{
  Opcode, op_active_source, op_image_view_on, op_text_view_on, op_inactive_source,
  op_request_active_source, op_routing_change, op_routing_information, op_set_stream_path,
  op_standby, op_record_off, op_record_on, op_record_status, op_record_tv_screen,
  op_clear_analogue_timer, op_clear_digital_timer, op_clear_ext_timer, op_set_analogue_timer,
  op_set_digital_timer, op_set_ext_timer, op_set_timer_program_title, op_timer_cleared_status,
  op_timer_status, op_cec_version, op_get_cec_version, op_give_physical_addr, op_get_menu_language,
  op_report_physical_addr, op_set_menu_language, op_deck_control, op_deck_status,
  op_give_deck_status, op_play, op_give_tuner_device_status, op_select_analogue_service,
  op_select_digital_service, op_tuner_device_status, op_tuner_step_decrement,
  op_tuner_step_increment, op_device_vendor_id, op_give_device_vendor_id, op_vendor_command,
  op_vendor_command_with_id, op_vendor_remote_button_down, op_vendor_remote_button_up,
  op_set_osd_string, op_give_osd_name, op_set_osd_name, op_menu_request, op_menu_status,
  op_user_control_pressed, op_user_control_released, op_give_device_power_status,
  op_report_power_status, op_feature_abort, op_abort, op_give_audio_status,
  op_give_system_audio_mode_status, op_report_audio_status, op_report_short_audio_descriptor,
  op_request_short_audio_descriptor, op_set_system_audio_mode, op_system_audio_mode_request,
  op_system_audio_mode_status, op_set_audio_rate, op_initiate_arc, op_report_arc_initiated,
  op_report_arc_terminated, op_request_arc_initiation, op_request_arc_termination, op_terminate_arc,
  op_cdc_message, op_report_features, op_give_features, op_request_current_latency,
  op_report_current_latency, op_set_audio_volume_level,
}
use linux_cec.Operand.Ranged.{AudioVolumeLevel, Delay}
use linux_cec.Operand.Tagged.Features.{DeviceFeatures, RcProfile}
use linux_cec.Operand.Enums.Audio.{AudioRate}
use linux_cec.Operand.UiCommand.{UiCommand}
use linux_cec.Operand.Enums.Menu.{MenuState, MenuRequestType, DisplayControl}
use linux_cec.Operand.Newtype.{VendorId}
use linux_cec.Operand.Tuner.{TunerDeviceInfo}
use linux_cec.Operand.Enums.Deck.{PlayMode, StatusRequest, DeckInfo, DeckControlMode}
use linux_cec.Operand.Enums.Device.{AbortReason, PowerStatus, PrimaryDeviceType, Version}
use linux_cec.Operand.Headed.Timer.{TimerStatusData}
use linux_cec.Operand.Headed.Digital.{DigitalServiceId}
use linux_cec.Operand.Structs.Services.{AnalogueServiceId}
use linux_cec.Operand.Flags.{AllDeviceTypes, RecordingSequence}
use linux_cec.Operand.Structs.Timers.{Duration, Time}
use linux_cec.Operand.Enums.Date.{MonthOfYear, DayOfMonth}
use linux_cec.Operand.Enums.Recording.{TimerClearedStatusData, RecordStatusInfo}
use linux_cec.Operand.Scalars.{array}
use linux_cec.Operand.Headed.Record.{ExternalSource, RecordSource}
use linux_cec.Operand.Bitfields.{
  LatencyFlags, AudioStatus, audio_format_id_and_code, AudioFormatIdAndCode,
}
use linux_cec.Core.PhysicalAddress.{PhysicalAddress}
use linux_cec.Operand.Buffer.{BoundedBuffer, Element}
use linux_cec.Prelude.{Option, Bool, [], ◌∷◌, List, ℕ}

-- The elements of its two buffers that do not hold bytes.
abbrev pub descriptor_element : Element (List ℕ)
descriptor_element = record { codec = array 3; size_of = 3; default = 0 ∷ 0 ∷ 0 ∷ [] }

abbrev pub format_element : Element AudioFormatIdAndCode
format_element = record {
  codec = audio_format_id_and_code;
  size_of = 1;
  default = record { word = 0 };
}

pub data Message : Type 0 where
  active_source : PhysicalAddress → Message
  image_view_on : Message
  text_view_on : Message
  inactive_source : PhysicalAddress → Message
  request_active_source : Message
  routing_change : PhysicalAddress → PhysicalAddress → Message
  routing_information : PhysicalAddress → Message
  set_stream_path : PhysicalAddress → Message
  standby : Message
  record_off : Message
  record_on : RecordSource → Message
  record_status : RecordStatusInfo → Message
  record_tv_screen : Message
  clear_analogue_timer :
      DayOfMonth → MonthOfYear → Time → Duration → RecordingSequence → AnalogueServiceId → Message
  clear_digital_timer :
      DayOfMonth → MonthOfYear → Time → Duration → RecordingSequence → DigitalServiceId → Message
  clear_ext_timer :
      DayOfMonth → MonthOfYear → Time → Duration → RecordingSequence → ExternalSource → Message
  set_analogue_timer :
      DayOfMonth → MonthOfYear → Time → Duration → RecordingSequence → AnalogueServiceId → Message
  set_digital_timer :
      DayOfMonth → MonthOfYear → Time → Duration → RecordingSequence → DigitalServiceId → Message
  set_ext_timer :
      DayOfMonth → MonthOfYear → Time → Duration → RecordingSequence → ExternalSource → Message
  set_timer_program_title : (BoundedBuffer ℕ) → Message
  timer_cleared_status : TimerClearedStatusData → Message
  timer_status : TimerStatusData → Message
  cec_version : Version → Message
  get_cec_version : Message
  give_physical_addr : Message
  get_menu_language : Message
  report_physical_addr : PhysicalAddress → PrimaryDeviceType → Message
  set_menu_language : (List ℕ) → Message
  deck_control : DeckControlMode → Message
  deck_status : DeckInfo → Message
  give_deck_status : StatusRequest → Message
  play : PlayMode → Message
  give_tuner_device_status : StatusRequest → Message
  select_analogue_service : AnalogueServiceId → Message
  select_digital_service : DigitalServiceId → Message
  tuner_device_status : TunerDeviceInfo → Message
  tuner_step_decrement : Message
  tuner_step_increment : Message
  device_vendor_id : VendorId → Message
  give_device_vendor_id : Message
  vendor_command : (BoundedBuffer ℕ) → Message
  vendor_command_with_id : VendorId → (BoundedBuffer ℕ) → Message
  vendor_remote_button_down : (BoundedBuffer ℕ) → Message
  vendor_remote_button_up : Message
  set_osd_string : DisplayControl → (BoundedBuffer ℕ) → Message
  give_osd_name : Message
  set_osd_name : (BoundedBuffer ℕ) → Message
  menu_request : MenuRequestType → Message
  menu_status : MenuState → Message
  user_control_pressed : UiCommand → Message
  user_control_released : Message
  give_device_power_status : Message
  report_power_status : PowerStatus → Message
  feature_abort : ℕ → AbortReason → Message
  abort : Message
  give_audio_status : Message
  give_system_audio_mode_status : Message
  report_audio_status : AudioStatus → Message
  report_short_audio_descriptor : (BoundedBuffer (List ℕ)) → Message
  request_short_audio_descriptor : (BoundedBuffer AudioFormatIdAndCode) → Message
  set_system_audio_mode : Bool → Message
  system_audio_mode_request : PhysicalAddress → Message
  system_audio_mode_status : Bool → Message
  set_audio_rate : AudioRate → Message
  initiate_arc : Message
  report_arc_initiated : Message
  report_arc_terminated : Message
  request_arc_initiation : Message
  request_arc_termination : Message
  terminate_arc : Message
  cdc_message : PhysicalAddress → CdcMessage → Message
  report_features : Version → AllDeviceTypes → RcProfile → DeviceFeatures → Message
  give_features : Message
  request_current_latency : PhysicalAddress → Message
  report_current_latency : PhysicalAddress → Delay → LatencyFlags → (Option Delay) → Message
  set_audio_volume_level : AudioVolumeLevel → Message

abbrev pub opcode : Message → Opcode
opcode (active_source x0) = op_active_source
opcode image_view_on = op_image_view_on
opcode text_view_on = op_text_view_on
opcode (inactive_source x0) = op_inactive_source
opcode request_active_source = op_request_active_source
opcode (routing_change x0 x1) = op_routing_change
opcode (routing_information x0) = op_routing_information
opcode (set_stream_path x0) = op_set_stream_path
opcode standby = op_standby
opcode record_off = op_record_off
opcode (record_on x0) = op_record_on
opcode (record_status x0) = op_record_status
opcode record_tv_screen = op_record_tv_screen
opcode (clear_analogue_timer x0 x1 x2 x3 x4 x5) = op_clear_analogue_timer
opcode (clear_digital_timer x0 x1 x2 x3 x4 x5) = op_clear_digital_timer
opcode (clear_ext_timer x0 x1 x2 x3 x4 x5) = op_clear_ext_timer
opcode (set_analogue_timer x0 x1 x2 x3 x4 x5) = op_set_analogue_timer
opcode (set_digital_timer x0 x1 x2 x3 x4 x5) = op_set_digital_timer
opcode (set_ext_timer x0 x1 x2 x3 x4 x5) = op_set_ext_timer
opcode (set_timer_program_title x0) = op_set_timer_program_title
opcode (timer_cleared_status x0) = op_timer_cleared_status
opcode (timer_status x0) = op_timer_status
opcode (cec_version x0) = op_cec_version
opcode get_cec_version = op_get_cec_version
opcode give_physical_addr = op_give_physical_addr
opcode get_menu_language = op_get_menu_language
opcode (report_physical_addr x0 x1) = op_report_physical_addr
opcode (set_menu_language x0) = op_set_menu_language
opcode (deck_control x0) = op_deck_control
opcode (deck_status x0) = op_deck_status
opcode (give_deck_status x0) = op_give_deck_status
opcode (play x0) = op_play
opcode (give_tuner_device_status x0) = op_give_tuner_device_status
opcode (select_analogue_service x0) = op_select_analogue_service
opcode (select_digital_service x0) = op_select_digital_service
opcode (tuner_device_status x0) = op_tuner_device_status
opcode tuner_step_decrement = op_tuner_step_decrement
opcode tuner_step_increment = op_tuner_step_increment
opcode (device_vendor_id x0) = op_device_vendor_id
opcode give_device_vendor_id = op_give_device_vendor_id
opcode (vendor_command x0) = op_vendor_command
opcode (vendor_command_with_id x0 x1) = op_vendor_command_with_id
opcode (vendor_remote_button_down x0) = op_vendor_remote_button_down
opcode vendor_remote_button_up = op_vendor_remote_button_up
opcode (set_osd_string x0 x1) = op_set_osd_string
opcode give_osd_name = op_give_osd_name
opcode (set_osd_name x0) = op_set_osd_name
opcode (menu_request x0) = op_menu_request
opcode (menu_status x0) = op_menu_status
opcode (user_control_pressed x0) = op_user_control_pressed
opcode user_control_released = op_user_control_released
opcode give_device_power_status = op_give_device_power_status
opcode (report_power_status x0) = op_report_power_status
opcode (feature_abort x0 x1) = op_feature_abort
opcode abort = op_abort
opcode give_audio_status = op_give_audio_status
opcode give_system_audio_mode_status = op_give_system_audio_mode_status
opcode (report_audio_status x0) = op_report_audio_status
opcode (report_short_audio_descriptor x0) = op_report_short_audio_descriptor
opcode (request_short_audio_descriptor x0) = op_request_short_audio_descriptor
opcode (set_system_audio_mode x0) = op_set_system_audio_mode
opcode (system_audio_mode_request x0) = op_system_audio_mode_request
opcode (system_audio_mode_status x0) = op_system_audio_mode_status
opcode (set_audio_rate x0) = op_set_audio_rate
opcode initiate_arc = op_initiate_arc
opcode report_arc_initiated = op_report_arc_initiated
opcode report_arc_terminated = op_report_arc_terminated
opcode request_arc_initiation = op_request_arc_initiation
opcode request_arc_termination = op_request_arc_termination
opcode terminate_arc = op_terminate_arc
opcode (cdc_message x0 x1) = op_cdc_message
opcode (report_features x0 x1 x2 x3) = op_report_features
opcode give_features = op_give_features
opcode (request_current_latency x0) = op_request_current_latency
opcode (report_current_latency x0 x1 x2 x3) = op_report_current_latency
opcode (set_audio_volume_level x0) = op_set_audio_volume_level
