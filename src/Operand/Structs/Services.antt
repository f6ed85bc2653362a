-- ===== src/Operand/Structs/Services.antt =====
-- `AnalogueServiceId`, `AribData` and `DvbData` (linux-cec/src/operand.rs).
use linux_cec.Operand.OneByte.{one_byte}
use linux_cec.Operand.Structs.Laws.{derive_struct-Prefixed}
use linux_cec.Core.PhysicalAddress.{IsU16}
use linux_cec.Operand.Fields.{size, nil, field}
use linux_cec.Operand.Structs.{derive_struct, Struct}
use linux_cec.Operand.Encodable.{Prefixed, OperandEncodable}
use linux_cec.Prelude.{refl, ℕ}
use linux_cec.Operand.Scalars.{u16-Prefixed, u16}
use linux_cec.Operand.Enums.Broadcast.{
  broadcast_system-IsEnum, analogue_broadcast_type-IsEnum, AnalogueBroadcastType,
  analogue_broadcast_type, BroadcastSystem, broadcast_system,
}
use linux_cec.Operand.Primitive.{enum_operand-Prefixed, enum_operand, Any}

pub record AnalogueServiceId : Type 0 where
  pub broadcast_type : AnalogueBroadcastType
  pub frequency : ℕ
  pub system : BroadcastSystem

abbrev pub analogue_service_id_struct : Struct AnalogueServiceId
analogue_service_id_struct = record {
  fields =
      field (enum_operand analogue_broadcast_type)
        (field u16 (field (enum_operand broadcast_system) nil));
  build = λ t f s. record { broadcast_type = t; frequency = f; system = s };
  parts = λ a. (a.broadcast_type, (a.frequency, (a.system, tt)));
  size_of = 4;
}

abbrev pub analogue_service_id : OperandEncodable AnalogueServiceId
analogue_service_id = derive_struct analogue_service_id_struct

pub record AribData : Type 0 where
  pub transport_stream_id : ℕ
  pub service_id : ℕ
  pub original_network_id : ℕ

abbrev pub arib_data_struct : Struct AribData
arib_data_struct = record {
  fields = field u16 (field u16 (field u16 nil));
  build = λ t s o. record { transport_stream_id = t; service_id = s; original_network_id = o };
  parts = λ d. (d.transport_stream_id, (d.service_id, (d.original_network_id, tt)));
  size_of = 6;
}

abbrev pub arib_data : OperandEncodable AribData
arib_data = derive_struct arib_data_struct

abbrev pub IsAribData : AribData → Type 0
IsAribData d =
    IsU16 d.transport_stream_id × (IsU16 d.service_id × (IsU16 d.original_network_id × Unit {0}))

pub arib_data-Prefixed : Prefixed arib_data IsAribData
unfolding size u16
arib_data-Prefixed =
    derive_struct-Prefixed arib_data_struct (IsU16, (IsU16, (IsU16, tt)))
      (u16-Prefixed, (u16-Prefixed, (u16-Prefixed, tt))) (λ d. refl) (λ t. refl) (λ t. refl)

pub record DvbData : Type 0 where
  pub transport_stream_id : ℕ
  pub service_id : ℕ
  pub original_network_id : ℕ

abbrev pub dvb_data_struct : Struct DvbData
dvb_data_struct = record {
  fields = field u16 (field u16 (field u16 nil));
  build = λ t s o. record { transport_stream_id = t; service_id = s; original_network_id = o };
  parts = λ d. (d.transport_stream_id, (d.service_id, (d.original_network_id, tt)));
  size_of = 6;
}

abbrev pub dvb_data : OperandEncodable DvbData
dvb_data = derive_struct dvb_data_struct

abbrev pub IsDvbData : DvbData → Type 0
IsDvbData d =
    IsU16 d.transport_stream_id × (IsU16 d.service_id × (IsU16 d.original_network_id × Unit {0}))

pub dvb_data-Prefixed : Prefixed dvb_data IsDvbData
unfolding size u16
dvb_data-Prefixed =
    derive_struct-Prefixed dvb_data_struct (IsU16, (IsU16, (IsU16, tt)))
      (u16-Prefixed, (u16-Prefixed, (u16-Prefixed, tt))) (λ d. refl) (λ t. refl) (λ t. refl)

abbrev pub IsAnalogueServiceId : AnalogueServiceId → Type 0
IsAnalogueServiceId a = Unit {0} × (IsU16 a.frequency × (Unit {0} × Unit {0}))

-- An analogue service with a frequency of 16 bits is written as four bytes and read back, also with
-- any bytes behind; what is read from bytes is such a service; and no bytes make the decoder panic.
pub analogue_service_id-Prefixed : Prefixed analogue_service_id IsAnalogueServiceId
unfolding size u16 one_byte
analogue_service_id-Prefixed =
    derive_struct-Prefixed analogue_service_id_struct (Any, (IsU16, (Any, tt)))
      (
        enum_operand-Prefixed analogue_broadcast_type analogue_broadcast_type-IsEnum,
        (u16-Prefixed, (enum_operand-Prefixed broadcast_system broadcast_system-IsEnum, tt)),
      )
      (λ d. refl) (λ t. refl) (λ t. refl)
