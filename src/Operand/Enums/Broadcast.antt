-- ===== src/Operand/Enums/Broadcast.antt =====
-- The enums of broadcasts and tuners (linux-cec/src/operand.rs), with their discriminants from
-- linux-cec-sys/src/constants.rs.
use linux_cec.Prelude.{ℕ, refl, [], ◌∷◌, arith}
use linux_cec.Operand.Primitive.{Primitive, IsEnum, try_from_primitive}

pub data AnalogueBroadcastType : Type 0 where
  cable satellite terrestrial : AnalogueBroadcastType

abbrev pub analogue_broadcast_type_discriminant : AnalogueBroadcastType → ℕ
analogue_broadcast_type_discriminant cable = 0x00
analogue_broadcast_type_discriminant satellite = 0x01
analogue_broadcast_type_discriminant terrestrial = 0x02

abbrev pub analogue_broadcast_type : Primitive AnalogueBroadcastType
analogue_broadcast_type = record {
  name = "AnalogueBroadcastType";
  variants = cable ∷ satellite ∷ terrestrial ∷ [];
  discriminant = analogue_broadcast_type_discriminant;
}

pub analogue_broadcast_type-IsEnum : IsEnum analogue_broadcast_type
unfolding try_from_primitive
analogue_broadcast_type-IsEnum = record {
  discriminant-lt = elim [ cable ↦ omega arith | _ ↦ omega arith ];
  try_from-discriminant = elim [ cable ↦ refl | _ ↦ refl ];
}

pub data BroadcastSystem : Type 0 where
  pal_bg secam_lq pal_m ntsc_m pal_i secam_dk secam_bg secam_l pal_dk other : BroadcastSystem

abbrev pub broadcast_system_discriminant : BroadcastSystem → ℕ
broadcast_system_discriminant pal_bg = 0x00
broadcast_system_discriminant secam_lq = 0x01
broadcast_system_discriminant pal_m = 0x02
broadcast_system_discriminant ntsc_m = 0x03
broadcast_system_discriminant pal_i = 0x04
broadcast_system_discriminant secam_dk = 0x05
broadcast_system_discriminant secam_bg = 0x06
broadcast_system_discriminant secam_l = 0x07
broadcast_system_discriminant pal_dk = 0x08
broadcast_system_discriminant other = 0x1f

abbrev pub broadcast_system : Primitive BroadcastSystem
broadcast_system = record {
  name = "BroadcastSystem";
  variants =
      pal_bg ∷ secam_lq ∷ pal_m ∷ ntsc_m ∷ pal_i ∷ secam_dk ∷ secam_bg ∷ secam_l ∷ pal_dk ∷ other
      ∷ [];
  discriminant = broadcast_system_discriminant;
}

pub broadcast_system-IsEnum : IsEnum broadcast_system
unfolding try_from_primitive
broadcast_system-IsEnum = record {
  discriminant-lt = elim [ pal_bg ↦ omega arith | _ ↦ omega arith ];
  try_from-discriminant = elim [ pal_bg ↦ refl | _ ↦ refl ];
}

pub data ChannelNumberFormat : Type 0 where
  fmt1_part fmt2_part : ChannelNumberFormat

abbrev pub channel_number_format_discriminant : ChannelNumberFormat → ℕ
channel_number_format_discriminant fmt1_part = 0x01
channel_number_format_discriminant fmt2_part = 0x02

abbrev pub channel_number_format : Primitive ChannelNumberFormat
channel_number_format = record {
  name = "ChannelNumberFormat";
  variants = fmt1_part ∷ fmt2_part ∷ [];
  discriminant = channel_number_format_discriminant;
}

pub channel_number_format-IsEnum : IsEnum channel_number_format
unfolding try_from_primitive
channel_number_format-IsEnum = record {
  discriminant-lt = elim [ fmt1_part ↦ omega arith | _ ↦ omega arith ];
  try_from-discriminant = elim [ fmt1_part ↦ refl | _ ↦ refl ];
}

pub data DigitalServiceBroadcastSystem : Type 0 where
  arib_generic atsc_generic dvb_generic arib_bs arib_cs arib_t : DigitalServiceBroadcastSystem
  atsc_cable atsc_satellite atsc_terrestrial dvb_c dvb_s dvb_s2 : DigitalServiceBroadcastSystem
  dvb_t : DigitalServiceBroadcastSystem

abbrev pub digital_service_broadcast_system_discriminant : DigitalServiceBroadcastSystem → ℕ
digital_service_broadcast_system_discriminant arib_generic = 0x00
digital_service_broadcast_system_discriminant atsc_generic = 0x01
digital_service_broadcast_system_discriminant dvb_generic = 0x02
digital_service_broadcast_system_discriminant arib_bs = 0x08
digital_service_broadcast_system_discriminant arib_cs = 0x09
digital_service_broadcast_system_discriminant arib_t = 0x0a
digital_service_broadcast_system_discriminant atsc_cable = 0x10
digital_service_broadcast_system_discriminant atsc_satellite = 0x11
digital_service_broadcast_system_discriminant atsc_terrestrial = 0x12
digital_service_broadcast_system_discriminant dvb_c = 0x18
digital_service_broadcast_system_discriminant dvb_s = 0x19
digital_service_broadcast_system_discriminant dvb_s2 = 0x1a
digital_service_broadcast_system_discriminant dvb_t = 0x1b

abbrev pub digital_service_broadcast_system : Primitive DigitalServiceBroadcastSystem
digital_service_broadcast_system = record {
  name = "DigitalServiceBroadcastSystem";
  variants =
      arib_generic ∷ atsc_generic ∷ dvb_generic ∷ arib_bs ∷ arib_cs ∷ arib_t ∷ atsc_cable
      ∷ atsc_satellite ∷ atsc_terrestrial ∷ dvb_c ∷ dvb_s ∷ dvb_s2 ∷ dvb_t ∷ [];
  discriminant = digital_service_broadcast_system_discriminant;
}

pub digital_service_broadcast_system-IsEnum : IsEnum digital_service_broadcast_system
unfolding try_from_primitive
digital_service_broadcast_system-IsEnum = record {
  discriminant-lt = elim [ arib_generic ↦ omega arith | _ ↦ omega arith ];
  try_from-discriminant = elim [ arib_generic ↦ refl | _ ↦ refl ];
}

pub data ServiceIdMethod : Type 0 where
  by_digital_id by_channel : ServiceIdMethod

abbrev pub service_id_method_discriminant : ServiceIdMethod → ℕ
service_id_method_discriminant by_digital_id = 0x00
service_id_method_discriminant by_channel = 0x01

abbrev pub service_id_method : Primitive ServiceIdMethod
service_id_method = record {
  name = "ServiceIdMethod";
  variants = by_digital_id ∷ by_channel ∷ [];
  discriminant = service_id_method_discriminant;
}

pub service_id_method-IsEnum : IsEnum service_id_method
unfolding try_from_primitive
service_id_method-IsEnum = record {
  discriminant-lt = elim [ by_digital_id ↦ omega arith | _ ↦ omega arith ];
  try_from-discriminant = elim [ by_digital_id ↦ refl | _ ↦ refl ];
}

pub data TunerDisplayInfo : Type 0 where
  digital none analogue : TunerDisplayInfo

abbrev pub tuner_display_info_discriminant : TunerDisplayInfo → ℕ
tuner_display_info_discriminant digital = 0x00
tuner_display_info_discriminant none = 0x01
tuner_display_info_discriminant analogue = 0x02

abbrev pub tuner_display_info : Primitive TunerDisplayInfo
tuner_display_info = record {
  name = "TunerDisplayInfo";
  variants = digital ∷ none ∷ analogue ∷ [];
  discriminant = tuner_display_info_discriminant;
}

pub tuner_display_info-IsEnum : IsEnum tuner_display_info
unfolding try_from_primitive
tuner_display_info-IsEnum = record {
  discriminant-lt = elim [ digital ↦ omega arith | _ ↦ omega arith ];
  try_from-discriminant = elim [ digital ↦ refl | _ ↦ refl ];
}

pub data UiBroadcastType : Type 0 where
  toggle_all toggle_digital_analogue analogue analogue_terrestrial : UiBroadcastType
  analogue_cable analogue_satellite digital digital_terrestrial digital_cable : UiBroadcastType
  digital_satellite digital_comms_satellite digital_comms_satellite2 ip : UiBroadcastType

abbrev pub ui_broadcast_type_discriminant : UiBroadcastType → ℕ
ui_broadcast_type_discriminant toggle_all = 0x00
ui_broadcast_type_discriminant toggle_digital_analogue = 0x01
ui_broadcast_type_discriminant analogue = 0x10
ui_broadcast_type_discriminant analogue_terrestrial = 0x20
ui_broadcast_type_discriminant analogue_cable = 0x30
ui_broadcast_type_discriminant analogue_satellite = 0x40
ui_broadcast_type_discriminant digital = 0x50
ui_broadcast_type_discriminant digital_terrestrial = 0x60
ui_broadcast_type_discriminant digital_cable = 0x70
ui_broadcast_type_discriminant digital_satellite = 0x80
ui_broadcast_type_discriminant digital_comms_satellite = 0x90
ui_broadcast_type_discriminant digital_comms_satellite2 = 0x91
ui_broadcast_type_discriminant ip = 0xa0

abbrev pub ui_broadcast_type : Primitive UiBroadcastType
ui_broadcast_type = record {
  name = "UiBroadcastType";
  variants =
      toggle_all ∷ toggle_digital_analogue ∷ analogue ∷ analogue_terrestrial ∷ analogue_cable
      ∷ analogue_satellite ∷ digital ∷ digital_terrestrial ∷ digital_cable ∷ digital_satellite
      ∷ digital_comms_satellite ∷ digital_comms_satellite2 ∷ ip ∷ [];
  discriminant = ui_broadcast_type_discriminant;
}

pub ui_broadcast_type-IsEnum : IsEnum ui_broadcast_type
unfolding try_from_primitive
ui_broadcast_type-IsEnum = record {
  discriminant-lt = elim [ toggle_all ↦ omega arith | _ ↦ omega arith ];
  try_from-discriminant = elim [ toggle_all ↦ refl | _ ↦ refl ];
}
