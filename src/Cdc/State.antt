-- ===== src/Cdc/State.antt =====
-- The bit fields of linux-cec/src/cdc.rs: the enums that `derive(BitfieldSpecifier)` reads from
-- bits (linux-cec-macros/src/lib.rs), and the bytes that they are the fields of.
use linux_cec.Operand.Flags.{flags-Prefixed}
use linux_cec.Operand.OneByte.{one_byte}
use linux_cec.Operand.Encodable.{Prefixed, OperandEncodable}
use linux_cec.Operand.Bitfields.{bits_at}
use linux_cec.Core.Slice.{IsByte}
use linux_cec.Core.Error.{panicked, ok, Result}
use linux_cec.Operand.Primitive.{find_variant}
use linux_cec.Prelude.{
  zero, suc, refl, ◌<◌, none, ◌+◌, ◌==◌, [], some, arith, ◌*◌, ◌^◌, ◌∷◌, ◌%◌, ◌≡◌, Option,
  if◌then◌else◌, ℕ,
}

-- `from_bits` without a default variant, where no variant is `unreachable!` or a panic.
abbrev or_panic : {A : Type 0} → Option A → Result A
or_panic none = panicked
or_panic (some a) = ok a

pub data CdcErrorCode : Type 0 where
  no_error initiator_not_capable initiator_incapable_state other : CdcErrorCode

unfoldable pub cdc_error_code_into_bits : CdcErrorCode → ℕ
cdc_error_code_into_bits no_error = 0
cdc_error_code_into_bits initiator_not_capable = 1
cdc_error_code_into_bits initiator_incapable_state = 2
cdc_error_code_into_bits other = 3

unfoldable pub cdc_error_code_from_bits : ℕ → Result CdcErrorCode
unfolding find_variant cdc_error_code_into_bits
cdc_error_code_from_bits bits = or_panic (
    find_variant cdc_error_code_into_bits
      (no_error ∷ initiator_not_capable ∷ initiator_incapable_state ∷ other ∷ []) (bits % 2 ^ 2))

pub data FunctionalityState : Type 0 where
  not_supported inactive active : FunctionalityState
  invalid : ℕ → FunctionalityState

unfoldable pub functionality_state_into_bits : FunctionalityState → ℕ
functionality_state_into_bits not_supported = 0
functionality_state_into_bits inactive = 1
functionality_state_into_bits active = 2
functionality_state_into_bits (invalid x) = x

unfoldable pub functionality_state_from_bits : ℕ → FunctionalityState
functionality_state_from_bits bits =
    if bits % 2 ^ 2 == 0
    then not_supported
    else if bits % 2 ^ 2 == 1
    then inactive
    else if bits % 2 ^ 2 == 2
    then active
    else invalid (bits % 2 ^ 2)

pub data HecFunctionalityState : Type 0 where
  hec_not_supported hec_inactive hec_active activation_field : HecFunctionalityState

unfoldable pub hec_functionality_state_into_bits : HecFunctionalityState → ℕ
hec_functionality_state_into_bits hec_not_supported = 0
hec_functionality_state_into_bits hec_inactive = 1
hec_functionality_state_into_bits hec_active = 2
hec_functionality_state_into_bits activation_field = 3

unfoldable pub hec_functionality_state_from_bits : ℕ → Result HecFunctionalityState
unfolding find_variant hec_functionality_state_into_bits
hec_functionality_state_from_bits bits = or_panic (
    find_variant hec_functionality_state_into_bits
      (hec_not_supported ∷ hec_inactive ∷ hec_active ∷ activation_field ∷ []) (bits % 2 ^ 2))

pub record HecState : Type 0 where
  pub word : ℕ

unfoldable pub cdc_error : HecState → Result CdcErrorCode
unfolding cdc_error_code_from_bits
cdc_error s = cdc_error_code_from_bits (bits_at 0 2 s.word)

unfoldable pub enc_functionality : HecState → FunctionalityState
unfolding functionality_state_from_bits
enc_functionality s = functionality_state_from_bits (bits_at 2 2 s.word)

unfoldable pub host_functionality : HecState → FunctionalityState
unfolding functionality_state_from_bits
host_functionality s = functionality_state_from_bits (bits_at 4 2 s.word)

unfoldable pub hec_functionality : HecState → Result HecFunctionalityState
unfolding hec_functionality_state_from_bits
hec_functionality s = hec_functionality_state_from_bits (bits_at 6 2 s.word)

functionality_lem :
    (bits : ℕ) → functionality_state_into_bits (functionality_state_from_bits bits) ≡ bits % 4
unfolding functionality_state_into_bits functionality_state_from_bits
functionality_lem bits = ground arith

-- One of four variants with the values 0 to 3 is found.
cdc_error_lem :
    (r : ℕ)
    → r < 4
    → (c : CdcErrorCode) × (cdc_error_code_from_bits r ≡ ok c) × (cdc_error_code_into_bits c ≡ r)
unfolding cdc_error_code_from_bits
cdc_error_lem zero h = (no_error, refl, refl)
cdc_error_lem (suc zero) h = (initiator_not_capable, refl, refl)
cdc_error_lem (suc (suc zero)) h = (initiator_incapable_state, refl, refl)
cdc_error_lem (suc (suc (suc zero))) h = (other, refl, refl)
cdc_error_lem (suc (suc (suc (suc r)))) h = absurd (omega arith)

hec_functionality_lem :
    (r : ℕ)
    → r < 4
    → (f : HecFunctionalityState) × (hec_functionality_state_from_bits r ≡ ok f)
      × (hec_functionality_state_into_bits f ≡ r)
unfolding hec_functionality_state_from_bits
hec_functionality_lem zero h = (hec_not_supported, refl, refl)
hec_functionality_lem (suc zero) h = (hec_inactive, refl, refl)
hec_functionality_lem (suc (suc zero)) h = (hec_active, refl, refl)
hec_functionality_lem (suc (suc (suc zero))) h = (activation_field, refl, refl)
hec_functionality_lem (suc (suc (suc (suc r)))) h = absurd (omega arith)

-- In a byte that holds a HEC state, the two accessors without a default variant find a variant, and
-- the byte is the sum of the four fields, each at its bits.
pub hec_state_word :
    (s : HecState)
    → IsByte s.word
    → (c : CdcErrorCode) × (f : HecFunctionalityState) × (cdc_error s ≡ ok c)
      × (hec_functionality s ≡ ok f)
      × (s.word
          ≡ hec_functionality_state_into_bits f * 64
            + functionality_state_into_bits (host_functionality s) * 16
            + functionality_state_into_bits (enc_functionality s) * 4
            + cdc_error_code_into_bits c)
unfolding cdc_error hec_functionality enc_functionality host_functionality
hec_state_word s h =
    let (c, cdc, c_bits) = cdc_error_lem (bits_at 0 2 s.word) (omega arith) in
    let (f, hec, f_bits) = hec_functionality_lem (bits_at 6 2 s.word) (omega arith) in
    (
      c,
      f,
      cdc,
      hec,
      omega (
        arith,
        c_bits,
        f_bits,
        functionality_lem (bits_at 2 2 s.word),
        functionality_lem (bits_at 4 2 s.word),
      ),
    )

abbrev pub hec_state : OperandEncodable HecState
hec_state = one_byte (λ a. a.word) (λ b. ok (record { word = b }))

pub hec_state-Prefixed : Prefixed hec_state (λ s. IsByte s.word)
hec_state-Prefixed = flags-Prefixed (λ a. a.word) (λ b. record { word = b }) (λ a. refl) (λ b. refl)
