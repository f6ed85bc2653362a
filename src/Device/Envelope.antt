-- ===== src/Device/Envelope.antt =====
-- Raw messages of the kernel, and `MessageData` and `Envelope` (linux-cec/src/device.rs).
pub mod Laws
use Prim.Native.Nat.{min}
use mathlib.Core.Bool.{not}
use linux_cec.Message.Opcode.{Opcode, opcode_discriminant}
use linux_cec.Message.Data.{opcode}
use linux_cec.Operand.Primitive.{try_from_primitive}
use linux_cec.Message.Laws.{cec_message_operand}
use linux_cec.Core.Error.{
  from_tx_status, invalid_data, feature_abort, panicked, rx_error, abort, timeout, has_flag, ◌>>=◌,
  err, ok, Result,
}
use linux_cec.Core.Slice.{slice, index}
use linux_cec.Prelude.{
  ◌-◌, replicate, ◌++◌, ◌∷◌, ◌*◌, bit_or, ◌+◌, ◌&&◌, bit_and, ◌^◌, take, ◌/◌, length, leb,
  if◌then◌else◌, ℕ, List,
}
use linux_cec.Core.LogicalAddress.{logical_address_discriminant, logical_address, LogicalAddress}
use linux_cec.Message.Data.{Message}

-- `cec_msg`, as far as it is read: `msg` has 16 bytes.
pub record CecMsg : Type 0 where
  pub rx_ts : ℕ
  pub len : ℕ
  pub timeout : ℕ
  pub sequence : ℕ
  pub msg : List ℕ
  pub reply : ℕ
  pub rx_status : ℕ
  pub tx_status : ℕ

pub data MessageData : Type 0 where
  valid : Message → MessageData
  invalid : List ℕ → MessageData

pub record Envelope : Type 0 where
  pub message : MessageData
  pub initiator : LogicalAddress
  pub destination : LogicalAddress
  pub timestamp : ℕ
  pub sequence : ℕ

-- `MessageData::opcode`
unfoldable pub data_opcode : MessageData → Result ℕ
unfolding index
data_opcode (valid message) = ok (opcode_discriminant (opcode message))
data_opcode (invalid bytes) = index bytes 0

-- `MessageData::to_bytes`
abbrev pub data_to_bytes : MessageData → List ℕ
data_to_bytes (valid message) = cec_message_operand.to_bytes message
data_to_bytes (invalid bytes) = bytes

-- `ArrayVec::from_array_len` panics above the capacity.
unfoldable pub message_data : List ℕ → List ℕ → Result Message → Result MessageData
message_data array bytes (ok message) = ok (valid message)
message_data array bytes (err e) =
    if leb (length bytes) (length array) then ok (invalid (take (length bytes) array)) else panicked
message_data array bytes panicked = panicked

-- What `try_from` does behind its checks.
unfoldable pub read_envelope : CecMsg → Result Envelope
unfolding slice index message_data try_from_primitive
read_envelope raw = do
  bytes ← slice raw.msg 1 raw.len
  first ← index raw.msg 0
  initiator ← try_from_primitive logical_address (first / 2 ^ 4)
  destination ← try_from_primitive logical_address (bit_and first 0xf)
  array ← slice raw.msg 1 15
  message ← message_data array bytes (cec_message_operand.try_from_bytes bytes)
  ok (record {
    message = message;
    initiator = initiator;
    destination = destination;
    timestamp = raw.rx_ts;
    sequence = raw.sequence;
  })

-- `TryFrom<cec_msg> for Envelope`
unfoldable pub envelope_try_from : CecMsg → Result Envelope
unfolding read_envelope
envelope_try_from raw =
    if has_flag raw.rx_status 0x02
    then err timeout
    else if has_flag raw.rx_status 0x08
    then err abort
    else if has_flag raw.rx_status 0x04
    then err (rx_error feature_abort)
    else if not (leb 2 raw.len && leb raw.len 15)
    then err invalid_data
    else read_envelope raw

-- `cec_msg::new`, and what `tx_rx_message` writes into it. The bytes that do not fit are cut off.
unfoldable pub fill_message : LogicalAddress → LogicalAddress → Message → ℕ → ℕ → CecMsg
fill_message initiator destination message reply timeout_ms =
    let bytes = cec_message_operand.to_bytes message in
    let n = min (length bytes) 15 in
    record {
      rx_ts = 0;
      len = n + 1;
      timeout = timeout_ms;
      sequence = 0;
      msg =
          bit_or (logical_address_discriminant initiator * 2 ^ 4)
            (logical_address_discriminant destination)
          ∷ (take n bytes ++ replicate (15 - n) 0);
      reply = reply;
      rx_status = 0;
      tx_status = 0;
    }

-- `Device::tx_rx_message`, with the kernel's `CEC_TRANSMIT` as an argument.
unfoldable pub tx_rx_message :
    (CecMsg → Result CecMsg)
    → LogicalAddress
    → Message
    → LogicalAddress
    → Opcode
    → ℕ
    → Result Envelope
unfolding fill_message envelope_try_from from_tx_status
tx_rx_message transmit tx_logical_address message destination reply timeout_ms = do
  raw ←
      transmit
        (fill_message tx_logical_address destination message (opcode_discriminant reply) timeout_ms)
  if not (has_flag raw.tx_status 0x01)
      then err (from_tx_status raw.tx_status)
      else envelope_try_from raw
