-- ===== src/Message/Lengths.antt =====
-- The lengths that a CEC message is expected to have (linux-cec/src/message.rs).
use linux_cec.Operand.Headed.Timer.Laws.{IsTimerStatus}
use linux_cec.Operand.UiCommand.Laws.{IsUiCommand}
use linux_cec.Core.Slice.{IsByte}
use linux_cec.Cdc.Message.Laws.{IsCdcMessage}
use linux_cec.Operand.Buffer.Laws.{IsBuffer}
use linux_cec.Operand.Headed.DigitalLaws.{digital_len, IsDigitalServiceId}
use linux_cec.Operand.UiCommand.{ui_command}
use linux_cec.Operand.Flags.{all_device_types, recording_sequence}
use linux_cec.Operand.Bitfields.{latency_flags, audio_status}
use linux_cec.Operand.Headed.Timer.Parts.{timer_status_data}
use linux_cec.Operand.Structs.Services.{IsAnalogueServiceId, analogue_service_id}
use linux_cec.Operand.Tagged.Features.{IsRcProfile, IsDeviceFeatures, device_features, rc_profile}
use linux_cec.Operand.Newtype.{IsAddress, IsVendorId, physical_address, vendor_id}
use linux_cec.Operand.Headed.Record.{IsRecordSource, record_source}
use linux_cec.Operand.Headed.Digital.{digital_service_id}
use linux_cec.Operand.Ranged.{IsVolume, IsDelay, audio_volume_level, delay}
use linux_cec.Operand.Primitive.{Any, enum_operand, Primitive}
use linux_cec.Operand.Structs.Timers.{IsTime, IsDuration, time, duration}
use linux_cec.Cdc.Message.{cdc_message_operand}
use linux_cec.MessageEnum.{len}
use linux_cec.Operand.Scalars.{u8, bool, IsArray, array, u16}
use linux_cec.Operand.OneByte.{one_byte}
use linux_cec.Operand.Structs.{derive_struct}
use linux_cec.MessageEnum.Expected.{Longer}
use linux_cec.Operand.Buffer.{Element, bounded_buffer}
use linux_cec.Operand.Optional.{Optionally, optional}
use linux_cec.Prelude.{arith, ℕ, refl}

pub enum_operand-Longer : {A : Type 0} (p : Primitive A) → Longer (enum_operand p) Any
unfolding one_byte
enum_operand-Longer p = (1, refl, λ a h. omega arith)

pub bounded_buffer-Longer :
    {A : Type 0} (e : Element A) (P : A → Type 0) (capacity : ℕ)
    → Longer (bounded_buffer e capacity) (IsBuffer e P capacity)
unfolding bounded_buffer
bounded_buffer-Longer e P capacity = (0, refl, λ a h. omega arith)

pub physical_address-Longer : Longer physical_address IsAddress
unfolding u16
physical_address-Longer = (2, refl, λ a h. omega arith)

pub vendor_id-Longer : Longer vendor_id IsVendorId
unfolding array
vendor_id-Longer = (3, refl, λ a h. omega arith)

pub record_source-Longer : Longer record_source IsRecordSource
record_source-Longer = (1, refl, λ a h. omega arith)

pub time-Longer : Longer time IsTime
unfolding derive_struct
time-Longer = (2, refl, λ a h. omega arith)

pub duration-Longer : Longer duration IsDuration
unfolding derive_struct
duration-Longer = (2, refl, λ a h. omega arith)

pub recording_sequence-Longer : Longer recording_sequence (λ f. IsByte f.bits)
unfolding one_byte
recording_sequence-Longer = (1, refl, λ a h. omega arith)

pub analogue_service_id-Longer : Longer analogue_service_id IsAnalogueServiceId
unfolding derive_struct
analogue_service_id-Longer = (4, refl, λ a h. omega arith)

pub timer_status_data-Longer : Longer timer_status_data IsTimerStatus
timer_status_data-Longer = (1, refl, λ a h. omega arith)

pub ui_command-Longer : Longer ui_command IsUiCommand
ui_command-Longer = (1, refl, λ a h. omega arith)

pub cdc_message_operand-Longer : Longer cdc_message_operand IsCdcMessage
unfolding len
cdc_message_operand-Longer = (1, refl, λ a h. omega arith)

pub u8-Longer : Longer u8 IsByte
unfolding one_byte
u8-Longer = (1, refl, λ a h. omega arith)

pub bool-Longer : Longer bool (λ b. Unit {0})
unfolding one_byte
bool-Longer = (1, refl, λ a h. omega arith)

pub audio_status-Longer : Longer audio_status (λ a. IsByte a.word)
unfolding one_byte
audio_status-Longer = (1, refl, λ a h. omega arith)

pub latency_flags-Longer : Longer latency_flags (λ a. IsByte a.word)
unfolding one_byte
latency_flags-Longer = (1, refl, λ a h. omega arith)

pub all_device_types-Longer : Longer all_device_types (λ f. IsByte f.bits)
unfolding one_byte
all_device_types-Longer = (1, refl, λ a h. omega arith)

pub rc_profile-Longer : Longer rc_profile IsRcProfile
rc_profile-Longer = (1, refl, λ a h. omega arith)

pub device_features-Longer : Longer device_features IsDeviceFeatures
device_features-Longer = (1, refl, λ a h. omega arith)

pub delay-Longer : Longer delay IsDelay
unfolding one_byte
delay-Longer = (1, refl, λ a h. omega arith)

pub audio_volume_level-Longer : Longer audio_volume_level IsVolume
unfolding one_byte
audio_volume_level-Longer = (1, refl, λ a h. omega arith)

pub array-Longer : Longer (array 3) (IsArray 3)
unfolding array
array-Longer = (3, refl, λ a h. omega arith)

pub optional-delay-Longer : Longer (optional delay) (Optionally IsDelay)
unfolding optional
optional-delay-Longer = (0, refl, λ a h. omega arith)

pub digital_service_id-Longer : Longer digital_service_id IsDigitalServiceId
digital_service_id-Longer = (7, refl, λ d h. omega (arith, digital_len d))
