-- ===== src/Cdc/Hpd.antt =====
-- The HPD bit fields of linux-cec/src/cdc.rs, with the enums that are their fields.
use linux_cec.Core.Error.{ok}
use linux_cec.Operand.OneByte.{one_byte}
use linux_cec.Operand.Flags.{flags-Prefixed}
use linux_cec.Core.Slice.{IsByte}
use linux_cec.Operand.Bitfields.{bits_at}
use linux_cec.Operand.Encodable.{OperandEncodable, Prefixed}
use linux_cec.Operand.Primitive.{find_variant}
use linux_cec.Prelude.{[], ◌∷◌, ◌+◌, none, ◌^◌, ◌*◌, arith, some, ◌%◌, ◌≡◌, ℕ, Option, refl}

pub data HpdErrorCode : Type 0 where
  hpd_no_error hpd_initiator_not_capable hpd_initiator_incapable_state : HpdErrorCode
  hpd_other no_video : HpdErrorCode
  hpd_invalid : ℕ → HpdErrorCode

unfoldable pub hpd_error_code_into_bits : HpdErrorCode → ℕ
hpd_error_code_into_bits hpd_no_error = 0
hpd_error_code_into_bits hpd_initiator_not_capable = 1
hpd_error_code_into_bits hpd_initiator_incapable_state = 2
hpd_error_code_into_bits hpd_other = 3
hpd_error_code_into_bits no_video = 4
hpd_error_code_into_bits (hpd_invalid x) = x

-- `from_bits` with a default variant.
abbrev or_default : {A : Type 0} → A → Option A → A
or_default a none = a
or_default a (some b) = b

unfoldable pub hpd_error_code_from_bits : ℕ → HpdErrorCode
unfolding find_variant hpd_error_code_into_bits
hpd_error_code_from_bits bits = or_default (hpd_invalid (bits % 2 ^ 4)) (
    find_variant hpd_error_code_into_bits
      (hpd_no_error ∷ hpd_initiator_not_capable ∷ hpd_initiator_incapable_state ∷ hpd_other
        ∷ no_video ∷ [])
      (bits % 2 ^ 4))

pub data HpdState : Type 0 where
  cp_and_edid_disable cp_and_edid_enable cp_and_edid_disable_enable : HpdState
  edid_disable edid_enable edid_disable_enable : HpdState
  state_invalid : ℕ → HpdState

unfoldable pub hpd_state_into_bits : HpdState → ℕ
hpd_state_into_bits cp_and_edid_disable = 0
hpd_state_into_bits cp_and_edid_enable = 1
hpd_state_into_bits cp_and_edid_disable_enable = 2
hpd_state_into_bits edid_disable = 3
hpd_state_into_bits edid_enable = 4
hpd_state_into_bits edid_disable_enable = 5
hpd_state_into_bits (state_invalid x) = x

unfoldable pub hpd_state_from_bits : ℕ → HpdState
unfolding find_variant hpd_state_into_bits
hpd_state_from_bits bits = or_default (state_invalid (bits % 2 ^ 4)) (
    find_variant hpd_state_into_bits
      (cp_and_edid_disable ∷ cp_and_edid_enable ∷ cp_and_edid_disable_enable ∷ edid_disable
        ∷ edid_enable ∷ edid_disable_enable ∷ [])
      (bits % 2 ^ 4))

pub record InputPortHpdState : Type 0 where
  pub word : ℕ

unfoldable pub state : InputPortHpdState → HpdState
unfolding hpd_state_from_bits
state s = hpd_state_from_bits (bits_at 0 4 s.word)

unfoldable pub input_port : InputPortHpdState → ℕ
input_port s = bits_at 4 4 s.word

pub record HpdStateErrorCode : Type 0 where
  pub word : ℕ

unfoldable pub error_code : HpdStateErrorCode → HpdErrorCode
unfolding hpd_error_code_from_bits
error_code s = hpd_error_code_from_bits (bits_at 0 4 s.word)

unfoldable pub error_state : HpdStateErrorCode → HpdState
unfolding hpd_state_from_bits
error_state s = hpd_state_from_bits (bits_at 4 4 s.word)

hpd_state_lem : (bits : ℕ) → hpd_state_into_bits (hpd_state_from_bits bits) ≡ bits % 16
unfolding hpd_state_from_bits
hpd_state_lem bits = ground arith

hpd_error_lem : (bits : ℕ) → hpd_error_code_into_bits (hpd_error_code_from_bits bits) ≡ bits % 16
unfolding hpd_error_code_from_bits
hpd_error_lem bits = ground arith

-- A byte that holds an HPD state and error code is the sum of the two fields, each at its bits.
pub hpd_state_error_code_word :
    (s : HpdStateErrorCode)
    → IsByte s.word
    → s.word ≡ hpd_state_into_bits (error_state s) * 16 + hpd_error_code_into_bits (error_code s)
unfolding error_state error_code
hpd_state_error_code_word s h =
    omega (arith, hpd_state_lem (bits_at 4 4 s.word), hpd_error_lem (bits_at 0 4 s.word))

abbrev pub input_port_hpd_state : OperandEncodable InputPortHpdState
input_port_hpd_state = one_byte (λ a. a.word) (λ b. ok (record { word = b }))

abbrev pub hpd_state_error_code : OperandEncodable HpdStateErrorCode
hpd_state_error_code = one_byte (λ a. a.word) (λ b. ok (record { word = b }))

pub input_port_hpd_state-Prefixed : Prefixed input_port_hpd_state (λ s. IsByte s.word)
input_port_hpd_state-Prefixed =
    flags-Prefixed (λ a. a.word) (λ b. record { word = b }) (λ a. refl) (λ b. refl)

pub hpd_state_error_code-Prefixed : Prefixed hpd_state_error_code (λ s. IsByte s.word)
hpd_state_error_code-Prefixed =
    flags-Prefixed (λ a. a.word) (λ b. record { word = b }) (λ a. refl) (λ b. refl)
