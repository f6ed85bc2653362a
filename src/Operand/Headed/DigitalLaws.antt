-- ===== src/Operand/Headed/DigitalLaws.antt =====
-- The codec of `DigitalServiceId` (linux-cec/src/operand.rs) is lawful.
use linux_cec.Operand.Fields.RoundTrip.{AllPrefixed-InitPrefixed}
use linux_cec.Operand.Headed.{headed}
use linux_cec.Operand.Structs.{derive_struct}
use linux_cec.Operand.Headed.Laws.{headed-Prefixed, IsHeaded}
use linux_cec.Operand.Encodable.{Prefixed}
use linux_cec.Core.PhysicalAddress.{IsU16}
use linux_cec.Operand.Scalars.{u16, u16-Prefixed}
use linux_cec.Operand.Refined.Atsc.{atsc_data-Prefixed, IsAtscData}
use linux_cec.Operand.Refined.Channel.{channel_id-Prefixed, IsChannelId}
use linux_cec.Operand.Primitive.{try_from_primitive-ne-panicked}
use linux_cec.Operand.Structs.Services.{
  IsDvbData, dvb_data-Prefixed, arib_data-Prefixed, IsAribData,
}
use linux_cec.Core.Error.{ok, panicked}
use linux_cec.Operand.Fields.{apply, Tuple, size, Validity, Valid, AllPrefixed}
use linux_cec.Operand.Headed.Digital.{
  id_arib_generic, build_digital, digital_service_id, digital_headed, service_broadcast_system,
  digital_parts, digital_head, head_of, service_fields, digital_fields, DigitalServiceId,
  digital_into, digital_try_from, DigitalHead,
}
use linux_cec.Operand.Enums.Broadcast.{
  dvb_t, dvb_s, dvb_c, dvb_generic, atsc_terrestrial, atsc_satellite, atsc_cable, atsc_generic,
  arib_t, digital_service_broadcast_system, arib_cs, arib_bs, by_digital_id, service_id_method,
  by_channel, arib_generic, dvb_s2, DigitalServiceBroadcastSystem,
}
use linux_cec.Prelude.{◌+◌, bit_and, ◌^◌, ◌/◌, arith, ◌≡◌, ◌≢◌, ◌<◌, refl, ℕ}

abbrev pub service_validity : (s : DigitalServiceBroadcastSystem) → Validity (service_fields s)
service_validity arib_generic = (IsAribData, tt)
service_validity arib_bs = (IsAribData, tt)
service_validity arib_cs = (IsAribData, tt)
service_validity arib_t = (IsAribData, tt)
service_validity atsc_generic = (IsAtscData, tt)
service_validity atsc_cable = (IsAtscData, tt)
service_validity atsc_satellite = (IsAtscData, tt)
service_validity atsc_terrestrial = (IsAtscData, tt)
service_validity dvb_generic = (IsDvbData, tt)
service_validity dvb_c = (IsDvbData, tt)
service_validity dvb_s = (IsDvbData, tt)
service_validity dvb_s2 = (IsDvbData, tt)
service_validity dvb_t = (IsDvbData, tt)

abbrev pub digital_validity : (h : DigitalHead) → Validity (digital_fields h)
digital_validity (head_of by_channel system) = (IsChannelId, (IsU16, tt))
digital_validity (head_of by_digital_id system) = service_validity system

abbrev pub IsDigitalServiceId : DigitalServiceId → Type 0
IsDigitalServiceId d =
    Valid (digital_fields (digital_head d)) (digital_validity (digital_head d)) (digital_parts d)

service_prefixed :
    (s : DigitalServiceBroadcastSystem) → AllPrefixed (service_fields s) (service_validity s)
service_prefixed arib_generic = (arib_data-Prefixed, tt)
service_prefixed arib_bs = (arib_data-Prefixed, tt)
service_prefixed arib_cs = (arib_data-Prefixed, tt)
service_prefixed arib_t = (arib_data-Prefixed, tt)
service_prefixed atsc_generic = (atsc_data-Prefixed, tt)
service_prefixed atsc_cable = (atsc_data-Prefixed, tt)
service_prefixed atsc_satellite = (atsc_data-Prefixed, tt)
service_prefixed atsc_terrestrial = (atsc_data-Prefixed, tt)
service_prefixed dvb_generic = (dvb_data-Prefixed, tt)
service_prefixed dvb_c = (dvb_data-Prefixed, tt)
service_prefixed dvb_s = (dvb_data-Prefixed, tt)
service_prefixed dvb_s2 = (dvb_data-Prefixed, tt)
service_prefixed dvb_t = (dvb_data-Prefixed, tt)

prefixed : (h : DigitalHead) → AllPrefixed (digital_fields h) (digital_validity h)
prefixed (head_of by_channel system) = (channel_id-Prefixed, (u16-Prefixed, tt))
prefixed (head_of by_digital_id system) = service_prefixed system

head_round_trip :
    (h : DigitalHead) → (digital_into h < 256) × (digital_try_from (digital_into h) ≡ ok h)
unfolding digital_into digital_try_from
head_round_trip (head_of by_channel system) =
    elim system
      as (λ s.
        (digital_into (head_of by_channel s) < 256)
        × (digital_try_from (digital_into (head_of by_channel s)) ≡ ok (head_of by_channel s))) [
          | arib_generic ↦ (omega arith, refl)
          | _ ↦ (omega arith, refl)
        ]
head_round_trip (head_of by_digital_id system) =
    elim system
      as (λ s.
        (digital_into (head_of by_digital_id s) < 256)
        × (digital_try_from (digital_into (head_of by_digital_id s))
            ≡ ok (head_of by_digital_id s))) [
              | arib_generic ↦ (omega arith, refl)
              | _ ↦ (omega arith, refl)
            ]

no_panic : (b : ℕ) → digital_try_from b ≢ panicked
unfolding digital_try_from
no_panic b e = ground (
  arith,
  try_from_primitive-ne-panicked service_id_method (b / 2 ^ 7),
  try_from_primitive-ne-panicked digital_service_broadcast_system (bit_and b 0x7f),
)

-- What is built from a head and valid fields is valid, of the fields' size and seven bytes long.
abbrev Built : (h : DigitalHead) → Tuple (digital_fields h) → Type 0
Built h t =
    (let d = apply (digital_fields h) DigitalServiceId (build_digital h) t in
      (Valid (digital_fields h) (digital_validity h) t → IsDigitalServiceId d)
      × ((headed digital_headed).len d ≡ 1 + size (digital_fields h) t)
      × (size (digital_fields h) t ≡ 6))

built : (h : DigitalHead) (t : Tuple (digital_fields h)) → Built h t
unfolding size service_broadcast_system derive_struct u16
built (head_of by_channel system) t = (λ v. v, refl, refl)
built (head_of by_digital_id system) t =
    (elim system as (λ s. (t : Tuple (service_fields s)) → Built (head_of by_digital_id s) t) [
      | arib_generic ↦ λ t. (λ v. v, refl, refl)
      | _ ↦ λ t. (λ v. v, refl, refl)
    ])
      t

build-parts :
    (d : DigitalServiceId)
    → apply
        (digital_fields (digital_head d))
        DigitalServiceId
        (build_digital (digital_head d))
        (digital_parts d)
      ≡ d
unfolding service_broadcast_system
build-parts = elim [ id_arib_generic d ↦ refl | _ ↦ refl ]

digital_headed-IsHeaded : IsHeaded digital_headed IsDigitalServiceId digital_validity
digital_headed-IsHeaded = record {
  into-IsByte = λ d p. (head_round_trip (digital_head d)).0;
  try_from-into = λ d p. (head_round_trip (digital_head d)).1;
  try_from-ne-panicked = no_panic;
  lawful = λ h. AllPrefixed-InitPrefixed (digital_fields h) (digital_validity h) (prefixed h);
  build-parts = build-parts;
  parts_valid = λ d p. p;
  build_valid = λ b h t tried v. (built h t).0 v;
  len_build = λ b h t tried. (built h t).1;
  least_pos = omega arith;
  long = λ d p. omega (arith, (built (digital_head d) (digital_parts d)).2);
}

-- A digital service whose data are words of 16 bits and whose channel has a major number of ten
-- bits is written as seven bytes and read back, also with any bytes behind; what is read from bytes
-- is such a service; and no bytes make the decoder panic.
pub digital_service_id-Prefixed : Prefixed digital_service_id IsDigitalServiceId
digital_service_id-Prefixed =
    headed-Prefixed digital_headed IsDigitalServiceId digital_validity digital_headed-IsHeaded
      prefixed

pub digital_len : (d : DigitalServiceId) → digital_service_id.len d ≡ 7
digital_len d = omega (arith, (built (digital_head d) (digital_parts d)).2)
