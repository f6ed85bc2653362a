-- ===== src/Operand/Headed/Timer/Laws.antt =====
-- The codec of `TimerStatusData` (linux-cec/src/operand.rs) is lawful.
use linux_cec.Operand.Headed.Timer.{
  TimerProgrammedInfo, TimerStatusData, TimerKind, TimerHead, enough_space, no_free_timer,
  programmed, not_programmed, enough, not_enough, may_not_be_enough, nothing, no_timer, date,
  sequence, plug_error, address_error, ca, ca_entitlements, resolution, lock, clock, double,
  programmed_kind, error_kind, timer_head, timer_into, timer_try_from, programmed_kinds,
  error_kinds,
}
use linux_cec.Operand.Headed.{headed}
use linux_cec.Operand.Primitive.{try_from_primitive-ne-panicked}
use linux_cec.Operand.Encodable.{Lawful}
use linux_cec.Operand.Headed.Laws.{headed-Lawful, IsHeaded}
use linux_cec.Core.Error.{panicked, ok}
use linux_cec.Operand.Structs.Timers.{IsDuration}
use linux_cec.Operand.Optional.{Optionally}
use linux_cec.Operand.Headed.Timer.Available.{available-Lawful}
use linux_cec.Operand.Headed.Timer.Parts.{
  timer_of, build_timer, timer_status_data, timer_headed, info_parts, info_kind, kind_fields,
  timer_fields,
}
use linux_cec.Operand.Enums.Recording.{MediaInfo, unprotected_media, media_info}
use linux_cec.Operand.Fields.{size, apply, Tuple, InitPrefixed, Valid, Validity}
use linux_cec.Prelude.{◌^◌, ◌/◌, bit_and, ◌+◌, refl, arith, ◌≢◌, false, ◌≡◌, true, ◌<◌, Bool, ℕ}

abbrev pub kind_validity : (k : TimerKind) → Validity (kind_fields k)
kind_validity (programmed_kind enough) = tt
kind_validity (programmed_kind nothing) = tt
kind_validity (programmed_kind not_enough) = (Optionally IsDuration, tt)
kind_validity (programmed_kind may_not_be_enough) = (Optionally IsDuration, tt)
kind_validity (error_kind double) = (Optionally IsDuration, tt)
kind_validity (error_kind no_timer) = tt
kind_validity (error_kind date) = tt
kind_validity (error_kind sequence) = tt
kind_validity (error_kind plug_error) = tt
kind_validity (error_kind address_error) = tt
kind_validity (error_kind ca) = tt
kind_validity (error_kind ca_entitlements) = tt
kind_validity (error_kind resolution) = tt
kind_validity (error_kind lock) = tt
kind_validity (error_kind clock) = tt

abbrev pub timer_validity : (h : TimerHead) → Validity (timer_fields h)
timer_validity (timer_head overlap media kind) = kind_validity kind

abbrev pub IsTimerStatus : TimerStatusData → Type 0
IsTimerStatus s =
    Valid (kind_fields (info_kind s.programmed_info)) (kind_validity (info_kind s.programmed_info))
      (info_parts s.programmed_info)

kind_lawful : (k : TimerKind) → InitPrefixed (kind_fields k) (kind_validity k)
kind_lawful (programmed_kind enough) = tt
kind_lawful (programmed_kind nothing) = tt
kind_lawful (programmed_kind not_enough) = available-Lawful
kind_lawful (programmed_kind may_not_be_enough) = available-Lawful
kind_lawful (error_kind double) = available-Lawful
kind_lawful (error_kind no_timer) = tt
kind_lawful (error_kind date) = tt
kind_lawful (error_kind sequence) = tt
kind_lawful (error_kind plug_error) = tt
kind_lawful (error_kind address_error) = tt
kind_lawful (error_kind ca) = tt
kind_lawful (error_kind ca_entitlements) = tt
kind_lawful (error_kind resolution) = tt
kind_lawful (error_kind lock) = tt
kind_lawful (error_kind clock) = tt

lawful : (h : TimerHead) → InitPrefixed (timer_fields h) (timer_validity h)
lawful (timer_head overlap media kind) = kind_lawful kind

abbrev Returns : Bool → MediaInfo → TimerKind → Type 0
Returns overlap media kind =
    (let h = timer_head overlap media kind in
      (timer_into h < 256) × (timer_try_from (timer_into h) ≡ ok h))

head_round_trip :
    (kind : TimerKind) (overlap : Bool) (media : MediaInfo) → Returns overlap media kind
unfolding timer_into timer_try_from
head_round_trip (programmed_kind k) true =
    elim k as (λ k. (media : MediaInfo) → Returns true media (programmed_kind k)) [
      | enough ↦ elim [ unprotected_media ↦ (omega arith, refl) | _ ↦ (omega arith, refl) ]
      | _ ↦ elim [ unprotected_media ↦ (omega arith, refl) | _ ↦ (omega arith, refl) ]
    ]
head_round_trip (programmed_kind k) false =
    elim k as (λ k. (media : MediaInfo) → Returns false media (programmed_kind k)) [
      | enough ↦ elim [ unprotected_media ↦ (omega arith, refl) | _ ↦ (omega arith, refl) ]
      | _ ↦ elim [ unprotected_media ↦ (omega arith, refl) | _ ↦ (omega arith, refl) ]
    ]
head_round_trip (error_kind k) true =
    elim k as (λ k. (media : MediaInfo) → Returns true media (error_kind k)) [
      | no_timer ↦ elim [ unprotected_media ↦ (omega arith, refl) | _ ↦ (omega arith, refl) ]
      | _ ↦ elim [ unprotected_media ↦ (omega arith, refl) | _ ↦ (omega arith, refl) ]
    ]
head_round_trip (error_kind k) false =
    elim k as (λ k. (media : MediaInfo) → Returns false media (error_kind k)) [
      | no_timer ↦ elim [ unprotected_media ↦ (omega arith, refl) | _ ↦ (omega arith, refl) ]
      | _ ↦ elim [ unprotected_media ↦ (omega arith, refl) | _ ↦ (omega arith, refl) ]
    ]

no_panic : (b : ℕ) → timer_try_from b ≢ panicked
unfolding timer_try_from
no_panic b e = ground (
  arith,
  try_from_primitive-ne-panicked media_info (bit_and (b / 2 ^ 5) 3),
  try_from_primitive-ne-panicked programmed_kinds (bit_and b 0xf),
  try_from_primitive-ne-panicked error_kinds (bit_and b 0xf),
)

abbrev Built : (h : TimerHead) → Tuple (timer_fields h) → Type 0
Built h t =
    (let s = apply (timer_fields h) TimerStatusData (build_timer h) t in
      (Valid (timer_fields h) (timer_validity h) t → IsTimerStatus s)
      × ((headed timer_headed).len s ≡ 1 + size (timer_fields h) t))

built :
    (kind : TimerKind) (o : Bool) (m : MediaInfo) (t : Tuple (kind_fields kind))
    → Built (timer_head o m kind) t
built (programmed_kind k) o m =
    elim k
      as (λ k.
        (t : Tuple (kind_fields (programmed_kind k)))
        → Built (timer_head o m (programmed_kind k)) t) [
          | enough ↦ λ t. (λ v. v, refl)
          | _ ↦ λ t. (λ v. v, refl)
        ]
built (error_kind k) o m =
    elim k
      as (λ k. (t : Tuple (kind_fields (error_kind k))) → Built (timer_head o m (error_kind k)) t) [
        | no_timer ↦ λ t. (λ v. v, refl)
        | _ ↦ λ t. (λ v. v, refl)
      ]

build-parts :
    (i : TimerProgrammedInfo) (o : Bool) (m : MediaInfo)
    → apply
        (kind_fields (info_kind i))
        TimerStatusData
        (build_timer (timer_head o m (info_kind i)))
        (info_parts i)
      ≡ timer_of o m i
build-parts (programmed i) o m =
    elim i
      as (λ i.
        apply (kind_fields (info_kind (programmed i))) TimerStatusData
          (build_timer (timer_head o m (info_kind (programmed i)))) (info_parts (programmed i))
        ≡ timer_of o m (programmed i)) [ enough_space ↦ refl | _ ↦ refl ]
build-parts (not_programmed i) o m =
    elim i
      as (λ i.
        apply (kind_fields (info_kind (not_programmed i))) TimerStatusData
          (build_timer (timer_head o m (info_kind (not_programmed i))))
          (info_parts (not_programmed i))
        ≡ timer_of o m (not_programmed i)) [ no_free_timer ↦ refl | _ ↦ refl ]

timer_headed-IsHeaded : IsHeaded timer_headed IsTimerStatus timer_validity
timer_headed-IsHeaded = record {
  into-IsByte = λ s p. (head_round_trip (info_kind s.programmed_info) s.overlap_warning s.media).0;
  try_from-into =
      λ s p. (head_round_trip (info_kind s.programmed_info) s.overlap_warning s.media).1;
  try_from-ne-panicked = no_panic;
  lawful = lawful;
  build-parts = λ s. build-parts s.programmed_info s.overlap_warning s.media;
  parts_valid = λ s p. p;
  build_valid = λ b. elim [ timer_head o m k ↦ λ t tried v. (built k o m t).0 v ];
  len_build = λ b. elim [ timer_head o m k ↦ λ t tried. (built k o m t).1 ];
  least_pos = omega arith;
  long = λ s p. omega arith;
}

-- A timer status whose duration, if it has one, is valid is written as bytes, `len` of them, and
-- read back from them, with its warning, media and outcome; what is read from bytes is such a
-- status, not longer than the bytes; and no bytes make the decoder panic.
pub timer_status_data-Lawful : Lawful timer_status_data IsTimerStatus
timer_status_data-Lawful =
    headed-Lawful timer_headed IsTimerStatus timer_validity timer_headed-IsHeaded
