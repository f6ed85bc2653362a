-- ===== src/Operand/Headed/Timer/Parts.antt =====
-- `OperandEncodable for TimerStatusData` (linux-cec/src/operand.rs), field by field.
use linux_cec.Operand.Headed.Timer.{
  TimerProgrammedInfo, TimerStatusData, TimerKind, TimerHead, enough_space, none_available,
  not_enough_space, may_not_be_enough_space, no_free_timer, date_out_of_range,
  recording_sequence_error, invalid_external_plug, invalid_external_physical_address,
  ca_unsupported, insufficient_ca_entitlements, resolution_unsupported, parental_lock,
  clock_failure, duplicate, programmed, not_programmed, enough, not_enough, may_not_be_enough,
  nothing, no_timer, date, sequence, plug_error, address_error, ca, ca_entitlements, resolution,
  lock, clock, double, programmed_kind, error_kind, timer_head, timer_into, timer_try_from,
  available,
}
use linux_cec.Operand.Enums.Recording.{MediaInfo}
use linux_cec.Operand.Fields.{nil, field, Tuple, Curried, Fields}
use linux_cec.Operand.Encodable.{OperandEncodable}
use linux_cec.Operand.Headed.{headed, Headed}
use linux_cec.Prelude.{Bool}

abbrev pub kind_fields : TimerKind → Fields
kind_fields (programmed_kind not_enough) = field available nil
kind_fields (programmed_kind may_not_be_enough) = field available nil
kind_fields (programmed_kind enough) = nil
kind_fields (programmed_kind nothing) = nil
kind_fields (error_kind double) = field available nil
kind_fields (error_kind no_timer) = nil
kind_fields (error_kind date) = nil
kind_fields (error_kind sequence) = nil
kind_fields (error_kind plug_error) = nil
kind_fields (error_kind address_error) = nil
kind_fields (error_kind ca) = nil
kind_fields (error_kind ca_entitlements) = nil
kind_fields (error_kind resolution) = nil
kind_fields (error_kind lock) = nil
kind_fields (error_kind clock) = nil

abbrev pub timer_fields : TimerHead → Fields
timer_fields (timer_head overlap media kind) = kind_fields kind

abbrev pub info_kind : TimerProgrammedInfo → TimerKind
info_kind (programmed enough_space) = programmed_kind enough
info_kind (programmed none_available) = programmed_kind nothing
info_kind (programmed (not_enough_space d)) = programmed_kind not_enough
info_kind (programmed (may_not_be_enough_space d)) = programmed_kind may_not_be_enough
info_kind (not_programmed (duplicate d)) = error_kind double
info_kind (not_programmed no_free_timer) = error_kind no_timer
info_kind (not_programmed date_out_of_range) = error_kind date
info_kind (not_programmed recording_sequence_error) = error_kind sequence
info_kind (not_programmed invalid_external_plug) = error_kind plug_error
info_kind (not_programmed invalid_external_physical_address) = error_kind address_error
info_kind (not_programmed ca_unsupported) = error_kind ca
info_kind (not_programmed insufficient_ca_entitlements) = error_kind ca_entitlements
info_kind (not_programmed resolution_unsupported) = error_kind resolution
info_kind (not_programmed parental_lock) = error_kind lock
info_kind (not_programmed clock_failure) = error_kind clock

abbrev pub info_parts : (i : TimerProgrammedInfo) → Tuple (kind_fields (info_kind i))
info_parts (programmed enough_space) = tt
info_parts (programmed none_available) = tt
info_parts (programmed (not_enough_space d)) = (d, tt)
info_parts (programmed (may_not_be_enough_space d)) = (d, tt)
info_parts (not_programmed (duplicate d)) = (d, tt)
info_parts (not_programmed no_free_timer) = tt
info_parts (not_programmed date_out_of_range) = tt
info_parts (not_programmed recording_sequence_error) = tt
info_parts (not_programmed invalid_external_plug) = tt
info_parts (not_programmed invalid_external_physical_address) = tt
info_parts (not_programmed ca_unsupported) = tt
info_parts (not_programmed insufficient_ca_entitlements) = tt
info_parts (not_programmed resolution_unsupported) = tt
info_parts (not_programmed parental_lock) = tt
info_parts (not_programmed clock_failure) = tt

abbrev pub timer_of : Bool → MediaInfo → TimerProgrammedInfo → TimerStatusData
timer_of overlap m info = record { overlap_warning = overlap; media = m; programmed_info = info }

abbrev pub build_timer : (h : TimerHead) → Curried (timer_fields h) TimerStatusData
build_timer (timer_head o m (programmed_kind enough)) = timer_of o m (programmed enough_space)
build_timer (timer_head o m (programmed_kind nothing)) = timer_of o m (programmed none_available)
build_timer (timer_head o m (programmed_kind not_enough)) =
    λ d. timer_of o m (programmed (not_enough_space d))
build_timer (timer_head o m (programmed_kind may_not_be_enough)) =
    λ d. timer_of o m (programmed (may_not_be_enough_space d))
build_timer (timer_head o m (error_kind double)) = λ d. timer_of o m (not_programmed (duplicate d))
build_timer (timer_head o m (error_kind no_timer)) = timer_of o m (not_programmed no_free_timer)
build_timer (timer_head o m (error_kind date)) = timer_of o m (not_programmed date_out_of_range)
build_timer (timer_head o m (error_kind sequence)) =
    timer_of o m (not_programmed recording_sequence_error)
build_timer (timer_head o m (error_kind plug_error)) =
    timer_of o m (not_programmed invalid_external_plug)
build_timer (timer_head o m (error_kind address_error)) =
    timer_of o m (not_programmed invalid_external_physical_address)
build_timer (timer_head o m (error_kind ca)) = timer_of o m (not_programmed ca_unsupported)
build_timer (timer_head o m (error_kind ca_entitlements)) =
    timer_of o m (not_programmed insufficient_ca_entitlements)
build_timer (timer_head o m (error_kind resolution)) =
    timer_of o m (not_programmed resolution_unsupported)
build_timer (timer_head o m (error_kind lock)) = timer_of o m (not_programmed parental_lock)
build_timer (timer_head o m (error_kind clock)) = timer_of o m (not_programmed clock_failure)

abbrev pub head_of_status : TimerStatusData → TimerHead
head_of_status s = timer_head s.overlap_warning s.media (info_kind s.programmed_info)

abbrev pub timer_headed : Headed TimerStatusData TimerHead
timer_headed = record {
  into = timer_into;
  try_from = timer_try_from;
  fields = timer_fields;
  build = build_timer;
  head = head_of_status;
  parts = λ s. info_parts s.programmed_info;
  least = 1;
}

abbrev pub timer_status_data : OperandEncodable TimerStatusData
timer_status_data = headed timer_headed
