-- ===== src/Tests/Messages.antt =====
-- CDC messages (linux-cec/src/cdc.rs) that are encoded and decoded.
use linux_cec.MessageEnum.Laws.{never_panics, try_from_bytes-to_bytes, decoded_again}
use linux_cec.Operand.Fields.{decode}
use linux_cec.Core.Error.{panicked, ok}
use linux_cec.Core.Slice.{IsByte}
use linux_cec.Operand.Scalars.{u16}
use linux_cec.Cdc.Message.{inquire_state, cdc_message, Message}
use linux_cec.Core.PhysicalAddress.{PhysicalAddress}
use linux_cec.MessageEnum.{expected_len, len, to_bytes, try_from_bytes}
use linux_cec.Prelude.{◌≢◌, [], ◌∷◌, arith, ℕ, ◌≡◌, List, All, refl}
use linux_cec.Cdc.Message.Laws.{validity, IsCdcMessage, cdc_message-IsMessageEnum}

abbrev inquirer_address : PhysicalAddress
inquirer_address = record { value = 0x1000 }

abbrev second_address : PhysicalAddress
second_address = record { value = 0x2100 }

abbrev inquiry : Message
inquiry = inquire_state inquirer_address second_address

inquiry-IsCdcMessage : IsCdcMessage inquiry
inquiry-IsCdcMessage = (omega arith, (omega arith, tt))

abbrev inquiry_bytes : List ℕ
inquiry_bytes = 0x00 ∷ 0x10 ∷ 0x00 ∷ 0x21 ∷ 0x00 ∷ []

inquiry_bytes-IsByte : All IsByte inquiry_bytes
inquiry_bytes-IsByte = omega arith

inquiry_read : try_from_bytes cdc_message inquiry_bytes ≡ ok inquiry
unfolding try_from_bytes u16 expected_len decode linux_cec.Operand.Primitive.try_from_primitive
    linux_cec.MessageEnum.fold_step linux_cec.Core.Slice.slice_from
inquiry_read = refl

try_from_bytes-to_bytes_example :
    try_from_bytes cdc_message (to_bytes cdc_message inquiry) ≡ ok inquiry
try_from_bytes-to_bytes_example =
    try_from_bytes-to_bytes cdc_message validity cdc_message-IsMessageEnum inquiry
      inquiry-IsCdcMessage

never_panics_example : try_from_bytes cdc_message (0x01 ∷ 0x10 ∷ []) ≢ panicked
never_panics_example =
    never_panics cdc_message validity cdc_message-IsMessageEnum (0x01 ∷ 0x10 ∷ [])

decoded_again_example : try_from_bytes cdc_message (to_bytes cdc_message inquiry) ≡ ok inquiry
decoded_again_example =
    decoded_again cdc_message validity cdc_message-IsMessageEnum inquiry_bytes inquiry
      inquiry_bytes-IsByte inquiry_read
