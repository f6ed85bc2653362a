-- ===== src/Device/Envelope/Laws.antt =====
-- What holds of the envelopes that are read from raw messages (linux-cec/src/device.rs).
use linux_cec.Message.Opcode.{Opcode}
use linux_cec.MessageEnum.{to_bytes}
use linux_cec.Prelude.Bits.{and_mask, or_shifted}
use linux_cec.Core.LogicalAddress.{
  logical_address-IsEnum, tv, logical_address_discriminant, LogicalAddress, logical_address,
}
use linux_cec.Operand.Primitive.{try_from_primitive-ne-panicked}
use linux_cec.Core.Slice.{
  slice_lem, slice, index, length-slice, index-ne-panicked, slice-ne-panicked,
}
use linux_cec.Message.Data.{Message}
use linux_cec.Core.Error.{invalid_data, >>=-ne-panicked, err, ok, panicked, Result}
use linux_cec.Prelude.{
  ◌∙◌, take-append, length-replicate, drop, ◌-◌, [], length-append, replicate, true, ◌++◌, ap, ◌+◌,
  ◌∷◌, take, inr, inl, ◌<◌, ◌&&◌, leb, ◌*◌, bit_or, Bool-cases, bit_and, ◌^◌, ◌/◌, refl, arith, ◌≢◌,
  ◌≤◌, ◌≡◌, length, ℕ, List,
}
use linux_cec.Device.Envelope.{
  tx_rx_message, min, valid, not, fill_message, envelope_try_from, CecMsg, message_data,
  read_envelope,
}
use linux_cec.Message.Laws.{IsCecMessage, cec_message_operand-Lawful, cec_message_operand}

message_data-ne-panicked :
    (array bytes : List ℕ) (r : Result Message)
    → r ≢ panicked
    → length bytes ≤ length array
    → message_data array bytes r ≢ panicked
unfolding message_data
message_data-ne-panicked array bytes (ok m) h k e = cc
message_data-ne-panicked array bytes (err x) h k e = ground arith
message_data-ne-panicked array bytes panicked h k e = h refl

read_envelope-ne-panicked :
    (raw : CecMsg) → length raw.msg ≡ 16 → 2 ≤ raw.len → raw.len ≤ 15 → read_envelope raw ≢ panicked
unfolding read_envelope
read_envelope-ne-panicked raw h low high =
    >>=-ne-panicked _ _ (slice-ne-panicked raw.msg 1 raw.len (omega arith) (omega arith))
      (λ bytes eb. >>=-ne-panicked _ _ (index-ne-panicked raw.msg 0 (omega arith)) (λ first ef.
        >>=-ne-panicked _ _ (try_from_primitive-ne-panicked logical_address (first / 2 ^ 4))
          (λ i ei.
            >>=-ne-panicked _ _ (try_from_primitive-ne-panicked logical_address (bit_and first 0xf))
              (λ d ed.
                >>=-ne-panicked _ _ (slice-ne-panicked raw.msg 1 15 (omega arith) (omega arith))
                  (λ array ea.
                    >>=-ne-panicked _ _
                      (message_data-ne-panicked array bytes
                        (cec_message_operand.try_from_bytes bytes)
                        (cec_message_operand-Lawful.never_panics bytes)
                        (omega (
                          arith,
                          length-slice raw.msg 1 raw.len bytes eb,
                          length-slice raw.msg 1 15 array ea,
                        )))
                      (λ m em e. cc))))))

-- Reading an envelope from a raw message of 16 bytes does not panic, whatever its length, status
-- and bytes.
pub envelope-ne-panicked : (raw : CecMsg) → length raw.msg ≡ 16 → envelope_try_from raw ≢ panicked
unfolding envelope_try_from
envelope-ne-panicked raw h = elim (Bool-cases (not (leb 2 raw.len && leb raw.len 15))) [
  | inl bad ↦ λ e. ground arith
  | inr good ↦ λ e. ground (arith, read_envelope-ne-panicked raw h (ground arith) (ground arith))
]

-- The first byte holds two addresses of four bits.
header_addresses :
    (i d : LogicalAddress)
    → let header =
        bit_or (logical_address_discriminant i * 2 ^ 4) (logical_address_discriminant d) in
      (header / 2 ^ 4 ≡ logical_address_discriminant i)
      × (bit_and header 0xf ≡ logical_address_discriminant d)
header_addresses i d =
    let small = discriminant_small d in
    let joined =
      or_shifted 4 (logical_address_discriminant i) (logical_address_discriminant d) small in
    (
      omega (arith, joined, small),
      omega (
        arith,
        joined,
        small,
        and_mask 4
            (bit_or (logical_address_discriminant i * 2 ^ 4) (logical_address_discriminant d)),
      ),
    )
  where
    discriminant_small : (a : LogicalAddress) → logical_address_discriminant a < 16
    discriminant_small = elim [ tv ↦ omega arith | _ ↦ omega arith ]

take_all : (xs : List ℕ) → take (length xs) xs ≡ xs
take_all [] = refl
take_all (x ∷ xs) = ap (λ t. x ∷ t) (take_all xs)

to_bytes_pos : (m : Message) → 1 ≤ length (cec_message_operand.to_bytes m)
unfolding to_bytes
to_bytes_pos m = omega arith

read_envelope_of :
    (raw : CecMsg) (i d : LogicalAddress) (m : Message) (header : ℕ) (bytes rest : List ℕ)
    → raw.msg ≡ header ∷ (bytes ++ rest)
    → length bytes + length rest ≡ 15
    → raw.len ≡ length bytes + 1
    → cec_message_operand.try_from_bytes bytes ≡ ok m
    → header / 2 ^ 4 ≡ logical_address_discriminant i
    → bit_and header 0xf ≡ logical_address_discriminant d
    → read_envelope raw
      ≡ ok (record {
        message = valid m;
        initiator = i;
        destination = d;
        timestamp = raw.rx_ts;
        sequence = raw.sequence;
      })
unfolding read_envelope index message_data
read_envelope_of raw i d m header bytes rest is total counted decoded high low =
    let sixteen : length raw.msg ≡ 16 = rw is (omega (arith, length-append {0} bytes rest)) in
    let body : take (raw.len - 1) (drop 1 raw.msg) ≡ bytes =
      let n : raw.len - 1 ≡ length bytes = omega arith in rw n (rw is (take-append bytes rest)) in
    let sliced : slice raw.msg 1 raw.len ≡ ok bytes =
      slice_lem raw.msg 1 raw.len (omega arith) (omega arith) ∙ ap ok body in
    let first : index raw.msg 0 ≡ ok header = rw is refl in
    rw sliced (
      rw first (
        rw high (
          rw (logical_address-IsEnum.try_from-discriminant i) (
            rw low (
              rw (logical_address-IsEnum.try_from-discriminant d)
                (rw (slice_lem raw.msg 1 15 (omega arith) (omega arith)) (rw decoded refl)))))))

-- A message with valid fields and at most 14 bytes, written into a raw message as it is sent, and
-- received without an error, is read as an envelope with that message, its initiator and
-- destination, and the time and number of the raw message.
pub envelope_of_message :
    (i d : LogicalAddress) (m : Message) (reply timeout_ms rx_ts sequence : ℕ)
    → IsCecMessage m
    → length (cec_message_operand.to_bytes m) ≤ 14
    → envelope_try_from (record (fill_message i d m reply timeout_ms) {
      rx_ts = rx_ts;
      sequence = sequence;
      rx_status = 0x01;
    })
      ≡ ok (record {
        message = valid m;
        initiator = i;
        destination = d;
        timestamp = rx_ts;
        sequence = sequence;
      })
unfolding envelope_try_from read_envelope fill_message
envelope_of_message i d m reply timeout_ms rx_ts sequence h short =
    let bytes = cec_message_operand.to_bytes m in
    let whole : min (length bytes) 15 ≡ length bytes = omega arith in
    let all : take (length bytes) bytes ≡ bytes = take_all bytes in
    let some_byte : 1 ≤ length bytes = to_bytes_pos m in
    let good : (leb 2 (length bytes + 1) && leb (length bytes + 1) 15) ≡ true = ground arith in
    let (high, low) = header_addresses i d in
    rw whole (
      rw good (
        rw all (
          read_envelope_of
            (record (fill_message i d m reply timeout_ms) {
              rx_ts = rx_ts;
              sequence = sequence;
              rx_status = 0x01;
              len = length bytes + 1;
              msg =
                  bit_or (logical_address_discriminant i * 2 ^ 4) (logical_address_discriminant d)
                  ∷ (bytes ++ replicate (15 - length bytes) 0);
            })
            i d m (bit_or (logical_address_discriminant i * 2 ^ 4) (logical_address_discriminant d))
            bytes (replicate (15 - length bytes) 0) refl
            (omega (arith, length-replicate {A = ℕ} (15 - length bytes) 0)) refl
            (cec_message_operand-Lawful.try_from_bytes-to_bytes m h) high low)))

-- A kernel that has sent the message, with its number, and waits for no reply.
abbrev pub sends : ℕ → CecMsg → Result CecMsg
sends n raw = ok (record raw { tx_status = 0x01; sequence = n })

-- A message of 15 bytes or more, which the kernel sends, is reported to the caller as invalid data.
pub long_message_refused :
    (n : ℕ) (i d : LogicalAddress) (m : Message) (reply : Opcode) (timeout_ms : ℕ)
    → 15 ≤ length (cec_message_operand.to_bytes m)
    → tx_rx_message (sends n) i m d reply timeout_ms ≡ err invalid_data
unfolding tx_rx_message fill_message envelope_try_from
long_message_refused n i d m reply timeout_ms long =
    let cut : min (length (cec_message_operand.to_bytes m)) 15 ≡ 15 = omega arith in rw cut refl
