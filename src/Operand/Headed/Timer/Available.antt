-- ===== src/Operand/Headed/Timer/Available.antt =====
-- The duration that may follow a timer status (linux-cec/src/operand.rs).
use linux_cec.Core.Slice.{IsByte}
use linux_cec.Core.Error.{ok, panicked}
use linux_cec.Operand.Structs.Timers.{duration-Prefixed, duration, IsDuration, Duration}
use linux_cec.Operand.Optional.{Optionally}
use linux_cec.Operand.Encodable.{Lawful}
use linux_cec.Operand.Structs.{derive_struct}
use linux_cec.Operand.Headed.Timer.{available}
use linux_cec.Prelude.{◌∙◌, none, some, arith, length, refl, ◌≤◌, ◌≡◌, All, Option, ◌≢◌, List, ℕ}

duration_len : (d : Duration) → duration.len d ≡ 2
unfolding derive_struct
duration_len d = refl

read_some :
    (bytes : List ℕ) (d : Duration)
    → 2 ≤ length bytes
    → duration.try_from_bytes bytes ≡ ok d
    → available.try_from_bytes bytes ≡ ok (some d)
unfolding available
read_some bytes d h e = ground arith

round_trip :
    (o : Option Duration)
    → Optionally IsDuration o
    → available.try_from_bytes (available.to_bytes o) ≡ ok o
unfolding available
round_trip none h = refl
round_trip (some d) h =
    read_some (duration.to_bytes d) d
      (omega (arith, duration-Prefixed.lawful.length-to_bytes d h, duration_len d))
      (duration-Prefixed.lawful.try_from_bytes-to_bytes d h)

some_read :
    (bytes : List ℕ) (d : Duration)
    → available.try_from_bytes bytes ≡ ok (some d)
    → (2 ≤ length bytes) × (duration.try_from_bytes bytes ≡ ok d)
unfolding available
some_read bytes d e = ground arith

valid :
    (bytes : List ℕ) (o : Option Duration)
    → All IsByte bytes
    → available.try_from_bytes bytes ≡ ok o
    → Optionally IsDuration o
valid bytes none h e = tt
valid bytes (some d) h e = duration-Prefixed.lawful.decoded_valid bytes d h (some_read bytes d e).1

fits :
    (bytes : List ℕ) (o : Option Duration)
    → available.try_from_bytes bytes ≡ ok o
    → available.len o ≤ length bytes
fits bytes none e = unfold available in omega arith
fits bytes (some d) e = unfold available in (some_read bytes d e).0

no_panic : (bytes : List ℕ) → available.try_from_bytes bytes ≢ panicked
unfolding available
no_panic bytes e = ground (arith, duration-Prefixed.lawful.never_panics bytes)

written :
    (o : Option Duration)
    → Optionally IsDuration o
    → All IsByte (available.to_bytes o) × (length (available.to_bytes o) ≡ available.len o)
unfolding available
written none h = (tt, refl)
written (some d) h = (
  duration-Prefixed.lawful.to_bytes-IsByte d h,
  duration-Prefixed.lawful.length-to_bytes d h ∙ duration_len d,
)

-- A duration, or none, is written and read back, with none behind.
pub available-Lawful : Lawful available (Optionally IsDuration)
available-Lawful = record {
  to_bytes-IsByte = λ o h. (written o h).0;
  length-to_bytes = λ o h. (written o h).1;
  try_from_bytes-to_bytes = round_trip;
  decoded_valid = valid;
  len_le = fits;
  never_panics = no_panic;
}
