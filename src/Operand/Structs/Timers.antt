-- ===== src/Operand/Structs/Timers.antt =====
-- `Duration` and `Time` (linux-cec/src/operand.rs).
use linux_cec.Operand.OneByte.{one_byte}
use linux_cec.Prelude.{refl}
use linux_cec.Operand.Structs.Laws.{derive_struct-Prefixed}
use linux_cec.Operand.Fields.{size, nil, field}
use linux_cec.Operand.Structs.{derive_struct, Struct}
use linux_cec.Operand.Encodable.{Prefixed, OperandEncodable}
use linux_cec.Operand.Ranged.{BcdByte, bcd_byte, IsBcd, bcd_byte-Prefixed}

pub record Duration : Type 0 where
  pub hours : BcdByte
  pub minutes : BcdByte

abbrev pub duration_struct : Struct Duration
duration_struct = record {
  fields = field (bcd_byte 0 99) (field (bcd_byte 0 59) nil);
  build = λ h m. record { hours = h; minutes = m };
  parts = λ d. (d.hours, (d.minutes, tt));
  size_of = 2;
}

abbrev pub duration : OperandEncodable Duration
duration = derive_struct duration_struct

pub record Time : Type 0 where
  pub hour : BcdByte
  pub minute : BcdByte

abbrev pub time_struct : Struct Time
time_struct = record {
  fields = field (bcd_byte 0 23) (field (bcd_byte 0 59) nil);
  build = λ h m. record { hour = h; minute = m };
  parts = λ t. (t.hour, (t.minute, tt));
  size_of = 2;
}

abbrev pub time : OperandEncodable Time
time = derive_struct time_struct

abbrev pub IsDuration : Duration → Type 0
IsDuration d = IsBcd 0 99 d.hours × (IsBcd 0 59 d.minutes × Unit {0})

pub duration-Prefixed : Prefixed duration IsDuration
unfolding size one_byte
duration-Prefixed =
    derive_struct-Prefixed duration_struct (IsBcd 0 99, (IsBcd 0 59, tt))
      (bcd_byte-Prefixed 0 99, (bcd_byte-Prefixed 0 59, tt)) (λ d. refl) (λ t. refl) (λ t. refl)

abbrev pub IsTime : Time → Type 0
IsTime t = IsBcd 0 23 t.hour × (IsBcd 0 59 t.minute × Unit {0})

-- A time with an hour from 0 to 23 and a minute from 0 to 59 in decimal digits is written as two
-- bytes and read back, also with any bytes behind; what is read from bytes is such a time; and no
-- bytes make the decoder panic.
pub time-Prefixed : Prefixed time IsTime
unfolding size one_byte
time-Prefixed =
    derive_struct-Prefixed time_struct (IsBcd 0 23, (IsBcd 0 59, tt))
      (bcd_byte-Prefixed 0 23, (bcd_byte-Prefixed 0 59, tt)) (λ d. refl) (λ t. refl) (λ t. refl)
