-- ===== src/Operand/Headed/Digital.antt =====
-- `DigitalServiceId` (linux-cec/src/operand.rs).
use linux_cec.Operand.Scalars.{u16}
use linux_cec.Operand.Refined.Channel.{ChannelId, channel_id}
use linux_cec.Operand.Refined.Atsc.{atsc_data, AtscData}
use linux_cec.Core.Error.{ok, ◌>>=◌, Result}
use linux_cec.Operand.Encodable.{OperandEncodable}
use linux_cec.Operand.Structs.Services.{dvb_data, DvbData, arib_data, AribData}
use linux_cec.Operand.Primitive.{try_from_primitive}
use linux_cec.Operand.Fields.{nil, field, Fields, Curried, Tuple}
use linux_cec.Operand.Headed.{headed, Headed}
use linux_cec.Operand.Enums.Broadcast.{
  dvb_t, dvb_s2, dvb_s, dvb_c, atsc_terrestrial, atsc_satellite, atsc_cable, arib_t, arib_cs,
  arib_bs, dvb_generic, service_id_method, by_digital_id, atsc_generic, arib_generic, by_channel,
  digital_service_broadcast_system, ServiceIdMethod, DigitalServiceBroadcastSystem,
}
use linux_cec.Prelude.{bit_and, ◌^◌, ◌*◌, ◌/◌, bit_or, ℕ}

pub data DigitalServiceId : Type 0 where
  id_arib_generic id_arib_bs id_arib_cs id_arib_t : AribData → DigitalServiceId
  id_atsc_generic id_atsc_cable id_atsc_satellite id_atsc_terrestrial : AtscData → DigitalServiceId
  id_dvb_generic id_dvb_c id_dvb_s id_dvb_s2 id_dvb_t : DvbData → DigitalServiceId
  id_channel : DigitalServiceBroadcastSystem → ChannelId → ℕ → DigitalServiceId

-- `broadcast_system`
unfoldable pub service_broadcast_system : DigitalServiceId → DigitalServiceBroadcastSystem
service_broadcast_system (id_arib_generic d) = arib_generic
service_broadcast_system (id_atsc_generic d) = atsc_generic
service_broadcast_system (id_dvb_generic d) = dvb_generic
service_broadcast_system (id_arib_bs d) = arib_bs
service_broadcast_system (id_arib_cs d) = arib_cs
service_broadcast_system (id_arib_t d) = arib_t
service_broadcast_system (id_atsc_cable d) = atsc_cable
service_broadcast_system (id_atsc_satellite d) = atsc_satellite
service_broadcast_system (id_atsc_terrestrial d) = atsc_terrestrial
service_broadcast_system (id_dvb_c d) = dvb_c
service_broadcast_system (id_dvb_s d) = dvb_s
service_broadcast_system (id_dvb_s2 d) = dvb_s2
service_broadcast_system (id_dvb_t d) = dvb_t
service_broadcast_system (id_channel system channel reserved) = system

abbrev pub method_of : DigitalServiceId → ServiceIdMethod
method_of (id_channel system channel reserved) = by_channel
method_of _ = by_digital_id

-- The first byte: the method in the top bit, and the system.
pub data DigitalHead : Type 0 where
  head_of : ServiceIdMethod → DigitalServiceBroadcastSystem → DigitalHead

unfoldable pub digital_into : DigitalHead → ℕ
digital_into (head_of method system) =
    bit_or (digital_service_broadcast_system.discriminant system)
      (service_id_method.discriminant method * 2 ^ 7)

unfoldable pub digital_try_from : ℕ → Result DigitalHead
unfolding try_from_primitive
digital_try_from head = do
  method ← try_from_primitive service_id_method (head / 2 ^ 7)
  system ← try_from_primitive digital_service_broadcast_system (bit_and head 0x7f)
  ok (head_of method system)

-- The data of a service found by its digital identifier.
abbrev pub service_fields : DigitalServiceBroadcastSystem → Fields
service_fields arib_generic = field arib_data nil
service_fields arib_bs = field arib_data nil
service_fields arib_cs = field arib_data nil
service_fields arib_t = field arib_data nil
service_fields atsc_generic = field atsc_data nil
service_fields atsc_cable = field atsc_data nil
service_fields atsc_satellite = field atsc_data nil
service_fields atsc_terrestrial = field atsc_data nil
service_fields dvb_generic = field dvb_data nil
service_fields dvb_c = field dvb_data nil
service_fields dvb_s = field dvb_data nil
service_fields dvb_s2 = field dvb_data nil
service_fields dvb_t = field dvb_data nil

abbrev pub digital_fields : DigitalHead → Fields
digital_fields (head_of by_channel system) = field channel_id (field u16 nil)
digital_fields (head_of by_digital_id system) = service_fields system

abbrev pub build_service :
    (s : DigitalServiceBroadcastSystem) → Curried (service_fields s) DigitalServiceId
build_service arib_generic = id_arib_generic
build_service arib_bs = id_arib_bs
build_service arib_cs = id_arib_cs
build_service arib_t = id_arib_t
build_service atsc_generic = id_atsc_generic
build_service atsc_cable = id_atsc_cable
build_service atsc_satellite = id_atsc_satellite
build_service atsc_terrestrial = id_atsc_terrestrial
build_service dvb_generic = id_dvb_generic
build_service dvb_c = id_dvb_c
build_service dvb_s = id_dvb_s
build_service dvb_s2 = id_dvb_s2
build_service dvb_t = id_dvb_t

abbrev pub build_digital : (h : DigitalHead) → Curried (digital_fields h) DigitalServiceId
build_digital (head_of by_channel system) = id_channel system
build_digital (head_of by_digital_id system) = build_service system

abbrev pub digital_head : DigitalServiceId → DigitalHead
digital_head d = head_of (method_of d) (service_broadcast_system d)

abbrev pub digital_parts : (d : DigitalServiceId) → Tuple (digital_fields (digital_head d))
unfolding service_broadcast_system
digital_parts (id_arib_generic d) = (d, tt)
digital_parts (id_arib_bs d) = (d, tt)
digital_parts (id_arib_cs d) = (d, tt)
digital_parts (id_arib_t d) = (d, tt)
digital_parts (id_atsc_generic d) = (d, tt)
digital_parts (id_atsc_cable d) = (d, tt)
digital_parts (id_atsc_satellite d) = (d, tt)
digital_parts (id_atsc_terrestrial d) = (d, tt)
digital_parts (id_dvb_generic d) = (d, tt)
digital_parts (id_dvb_c d) = (d, tt)
digital_parts (id_dvb_s d) = (d, tt)
digital_parts (id_dvb_s2 d) = (d, tt)
digital_parts (id_dvb_t d) = (d, tt)
digital_parts (id_channel system channel reserved) = (channel, (reserved, tt))

abbrev pub digital_headed : Headed DigitalServiceId DigitalHead
digital_headed = record {
  into = digital_into;
  try_from = digital_try_from;
  fields = digital_fields;
  build = build_digital;
  head = digital_head;
  parts = digital_parts;
  least = 7;
}

abbrev pub digital_service_id : OperandEncodable DigitalServiceId
digital_service_id = headed digital_headed
