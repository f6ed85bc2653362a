-- ===== src/Operand/Tuner/Laws.antt =====
-- The codec of `TunerDeviceInfo` (linux-cec/src/operand.rs) is lawful.
use linux_cec.Operand.Encodable.{Lawful}
use linux_cec.Operand.Headed.DigitalLaws.{digital_len, digital_service_id-Prefixed}
use linux_cec.Core.Slice.{IsByte}
use linux_cec.Operand.Scalars.{u16}
use linux_cec.Operand.Structs.Services.{
  AnalogueServiceId, analogue_service_id-Prefixed, analogue_service_id,
}
use linux_cec.Operand.Headed.Digital.{DigitalServiceId, digital_service_id}
use linux_cec.Operand.Enums.Broadcast.{digital, tuner_display_info, TunerDisplayInfo}
use linux_cec.Operand.Structs.{derive_struct}
use linux_cec.Operand.Primitive.{try_from_primitive-ne-panicked, try_from_primitive}
use linux_cec.Core.Range.{only, admits}
use linux_cec.Operand.Fields.{size}
use linux_cec.Core.Error.{
  >>=-eq-panicked, panicked, out_of_range, ok-injective, err, ok, ◌>>=◌, >>=-eq-ok, Result,
}
use linux_cec.Operand.Tuner.{
  tuner_device_info, service_len, analogue_id, service_bytes, digital_id, TunerDeviceInfo,
  IsServiceId, ServiceId, tuner_try_from_bytes, tuner_head,
}
use linux_cec.Prelude.{
  inr, ==_iff, sym, ◌≤◌, Bool-cases, ◌⊎◌, inl, false, [], true, ap, ◌∙◌, ◌+◌, ◌==◌, arith, refl,
  bit_and, All, ◌∷◌, ◌≢◌, ◌≡◌, ◌<◌, length, List, Bool, ℕ,
}

abbrev finish : ℕ → Result ServiceId → Result TunerDeviceInfo
finish head read = do
  display ← try_from_primitive tuner_display_info (bit_and head 0x7f)
  service ← read
  ok (record {
    is_recording = bit_and head 0x80 == 0x80;
    display_info = display;
    service = service;
  })

abbrev read_analogue : List ℕ → Result ServiceId
read_analogue rest = do a ← analogue_service_id.try_from_bytes rest; ok (analogue_id a)

abbrev read_digital : List ℕ → Result ServiceId
read_digital rest = do d ← digital_service_id.try_from_bytes rest; ok (digital_id d)

-- Five bytes hold an analogue service, eight a digital one, and all else is refused.
five_bytes :
    (head : ℕ) (rest : List ℕ)
    → length rest ≡ 4
    → tuner_try_from_bytes (head ∷ rest) ≡ finish head (read_analogue rest)
unfolding tuner_try_from_bytes admits
five_bytes head rest h = rw h refl

eight_bytes :
    (head : ℕ) (rest : List ℕ)
    → length rest ≡ 7
    → tuner_try_from_bytes (head ∷ rest) ≡ finish head (read_digital rest)
unfolding tuner_try_from_bytes admits
eight_bytes head rest h = rw h refl

refused :
    (bytes : List ℕ)
    → length bytes ≢ 5
    → length bytes ≢ 8
    → tuner_try_from_bytes bytes ≡ err (out_of_range (only (5 ∷ 8 ∷ [])) (length bytes) "bytes")
unfolding tuner_try_from_bytes admits
refused bytes five eight = ground arith

head_lem :
    (is_recording : Bool) (display : TunerDisplayInfo)
    → (tuner_head is_recording display < 256)
      × (try_from_primitive tuner_display_info (bit_and (tuner_head is_recording display) 0x7f)
          ≡ ok display)
      × ((bit_and (tuner_head is_recording display) 0x80 == 0x80) ≡ is_recording)
unfolding tuner_head try_from_primitive
head_lem true = elim [ digital ↦ (omega arith, refl, refl) | _ ↦ (omega arith, refl, refl) ]
head_lem false = elim [ digital ↦ (omega arith, refl, refl) | _ ↦ (omega arith, refl, refl) ]

finished :
    (is_recording : Bool) (display : TunerDisplayInfo) (s : ServiceId) (read : Result ServiceId)
    → read ≡ ok s
    → finish (tuner_head is_recording display) read
      ≡ ok (record { is_recording = is_recording; display_info = display; service = s })
finished is_recording display s read e =
    let (_, shown, marked) = head_lem is_recording display in rw (shown, e, marked) refl

written :
    (s : ServiceId)
    → IsServiceId s
    → All IsByte (service_bytes s) × (1 + length (service_bytes s) ≡ service_len s)
unfolding size derive_struct u16
written (analogue_id a) h = (
  analogue_service_id-Prefixed.lawful.to_bytes-IsByte a h,
  omega (arith, analogue_service_id-Prefixed.lawful.length-to_bytes a h),
)
written (digital_id d) h = (
  digital_service_id-Prefixed.lawful.to_bytes-IsByte d h,
  omega (arith, digital_service_id-Prefixed.lawful.length-to_bytes d h, digital_len d),
)

round_trip :
    (r : Bool) (d : TunerDisplayInfo) (s : ServiceId)
    → IsServiceId s
    → tuner_try_from_bytes (tuner_head r d ∷ service_bytes s)
      ≡ ok (record { is_recording = r; display_info = d; service = s })
round_trip r d (analogue_id a) h =
    five_bytes (tuner_head r d) (service_bytes (analogue_id a))
      (omega (arith, (written (analogue_id a) h).1))
    ∙ finished r d (analogue_id a) _ (
        ap (λ (x : Result AnalogueServiceId). x >>= (λ a. ok (analogue_id a)))
          (analogue_service_id-Prefixed.lawful.try_from_bytes-to_bytes a h))
round_trip r d (digital_id i) h =
    eight_bytes (tuner_head r d) (service_bytes (digital_id i))
      (omega (arith, (written (digital_id i) h).1))
    ∙ finished r d (digital_id i) _ (
        ap (λ (x : Result DigitalServiceId). x >>= (λ d. ok (digital_id d)))
          (digital_service_id-Prefixed.lawful.try_from_bytes-to_bytes i h))

abbrev Reads : ℕ → List ℕ → Result ServiceId → Type 0
Reads n rest read =
    ((s : ServiceId) → read ≡ ok s → (service_len s ≡ n) × (All IsByte rest → IsServiceId s))
    × (read ≢ panicked)

analogue-Reads : (rest : List ℕ) → Reads 5 rest (read_analogue rest)
analogue-Reads rest = (
  λ s e.
      let (a, read, made) =
        >>=-eq-ok (analogue_service_id.try_from_bytes rest) (λ a. ok (analogue_id a)) e in
      rw (← ok-injective made)
        (refl, λ h. analogue_service_id-Prefixed.lawful.decoded_valid rest a h read),
  λ e. ground (arith, analogue_service_id-Prefixed.lawful.never_panics rest),
)

digital-Reads : (rest : List ℕ) → Reads 8 rest (read_digital rest)
digital-Reads rest = (
  λ s e.
      let (d, read, made) =
        >>=-eq-ok (digital_service_id.try_from_bytes rest) (λ d. ok (digital_id d)) e in
      rw (← ok-injective made)
        (refl, λ h. digital_service_id-Prefixed.lawful.decoded_valid rest d h read),
  λ e. ground (arith, digital_service_id-Prefixed.lawful.never_panics rest),
)

-- What the three cases of the length come to.
abbrev Cases : ℕ → List ℕ → Type 0
Cases head rest =
    ((n : ℕ) × (read : Result ServiceId) × (length rest + 1 ≡ n)
      × Reads n rest read
      × (tuner_try_from_bytes (head ∷ rest) ≡ finish head read))
    ⊎ ((n : ℕ) × (tuner_try_from_bytes (head ∷ rest)
          ≡ err (out_of_range (only (5 ∷ 8 ∷ [])) n "bytes")))

by_length : (head : ℕ) (rest : List ℕ) → Cases head rest
by_length head rest = elim (Bool-cases (length rest == 4)) [
  | inl h ↦
      let four : length rest ≡ 4 = (==_iff (length rest) 4).0 h in
      inl (5, read_analogue rest, omega arith, analogue-Reads rest, five_bytes head rest four)
  | inr h ↦ elim (Bool-cases (length rest == 7)) [
    | inl k ↦
        let seven : length rest ≡ 7 = (==_iff (length rest) 7).0 k in
        inl (8, read_digital rest, omega arith, digital-Reads rest, eight_bytes head rest seven)
    | inr k ↦ inr (length (head ∷ rest), refused (head ∷ rest) (ground arith) (ground arith))
  ]
]

decoded :
    (bytes : List ℕ) (t : TunerDeviceInfo)
    → tuner_try_from_bytes bytes ≡ ok t
    → (service_len t.service ≤ length bytes) × (All IsByte bytes → IsServiceId t.service)
decoded [] t e = cc (e, refused [] (omega arith) (omega arith))
decoded (head ∷ rest) t e = elim (by_length head rest) [
  | inl (n, read, long, reads, same) ↦
      let (display, _, f) =
        >>=-eq-ok (try_from_primitive tuner_display_info (bit_and head 0x7f)) _ (sym same ∙ e) in
      let (s, service, made) = >>=-eq-ok read _ f in
      let (len, valid) = reads.0 s service in
      rw (← ok-injective made) (omega (arith, len, long), λ h. valid h.1)
  | inr (n, short) ↦ cc (e, short)
]

no_panic : (bytes : List ℕ) → tuner_try_from_bytes bytes ≢ panicked
no_panic [] e = cc (e, refused [] (omega arith) (omega arith))
no_panic (head ∷ rest) e = elim (by_length head rest) [
  | inl (n, read, long, reads, same) ↦
      elim (>>=-eq-panicked (try_from_primitive tuner_display_info (bit_and head 0x7f)) _
        (sym same ∙ e)) [
          | inl p ↦ try_from_primitive-ne-panicked tuner_display_info (bit_and head 0x7f) p
          | inr (display, _, f) ↦ elim (>>=-eq-panicked read _ f) [
            | inl p ↦ reads.1 p
            | inr (s, _, p) ↦ cc
          ]
        ]
  | inr (n, short) ↦ cc (e, short)
]

abbrev pub IsTunerDeviceInfo : TunerDeviceInfo → Type 0
IsTunerDeviceInfo t = IsServiceId t.service

-- A tuner status with a valid analogue or digital service is written as five or eight bytes and
-- read back from them, with the service that the length tells; what is read from bytes has a valid
-- service and is not longer than the bytes; and no bytes make the decoder panic.
pub tuner_device_info-Lawful : Lawful tuner_device_info IsTunerDeviceInfo
tuner_device_info-Lawful = record {
  to_bytes-IsByte = λ t h. ((head_lem t.is_recording t.display_info).0, (written t.service h).0);
  length-to_bytes = λ t h. omega (arith, (written t.service h).1);
  try_from_bytes-to_bytes = λ t h. round_trip t.is_recording t.display_info t.service h;
  decoded_valid = λ bytes t h e. (decoded bytes t e).1 h;
  len_le = λ bytes t e. (decoded bytes t e).0;
  never_panics = no_panic;
}
