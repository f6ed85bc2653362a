-- ===== src/Tests/Devices.antt =====
-- Raw messages (linux-cec/src/device.rs) and the EDID of a display (cecd/src/device.rs).
use linux_cec.Core.Range.{at_most}
use linux_cec.Device.Adapter.Status.{handle_status_lem, Follows, Reports}
use linux_cec.Device.Adapter.Laws.{
  set_logical_addresses_lem, requested, set_logical_addresses_tracks,
}
use linux_cec.Device.Adapter.{
  with_types, state_change, PollResult, assign_addresses, clear_logical_addresses, store,
  write_types, first_address, got_all, handle_status, set_logical_addresses, LogAddrs, Kernel,
  Adapter,
}
use linux_cec.Message.Laws.{cec_message_operand}
use linux_cec.Operand.Buffer.{bounded_buffer}
use linux_cec.Operand.Fields.{encode}
use linux_cec.MessageEnum.{to_bytes}
use linux_cec.Message.Opcode.{op_feature_abort}
use linux_cec.Cecd.Edid.Total.{parse-ne-panicked}
use linux_cec.Device.Envelope.Laws.{
  long_message_refused, sends, envelope_of_message, envelope-ne-panicked,
}
use linux_cec.Core.LogicalAddress.{
  unregistered_or_broadcast, LogicalAddressType, playback_device1, tv,
}
use linux_cec.Core.Slice.{IsByte}
use linux_cec.Cecd.Edid.Sound.{parse_sound, HasHdmiBlock}
use linux_cec.Device.Envelope.{
  Envelope, tx_rx_message, valid, fill_message, CecMsg, envelope_try_from,
}
use linux_cec.Cecd.Edid.Complete.{parse_first}
use linux_cec.Cecd.Edid.Complete.Blocks.{write_blocks, IsHdmi, DataBlock}
use linux_cec.Cecd.Edid.{parse_hdmi_edid_pa}
use linux_cec.Prelude.{
  ◌<◌, ◌≤◌, length, zero, All-append, suc, inl, refl, some, ◌++◌, replicate, arith, [], ◌≡◌, ℕ, ◌∷◌,
  ◌≢◌, List, All,
}
use linux_cec.Core.Error.{out_of_range, check, invalid_data, err, ok, panicked}
use linux_cec.Message.Data.{set_osd_name, Message}

abbrev name : List ℕ
name = replicate 14 0x41

abbrev named : Message
named = set_osd_name (record { buffer = name; len = 14 })

named_long : 15 ≤ length (cec_message_operand.to_bytes named)
unfolding to_bytes encode bounded_buffer linux_cec.Operand.OneByte.one_byte
named_long = omega arith

long_message_refused_example :
    tx_rx_message (sends 5) playback_device1 named tv op_feature_abort 0 ≡ err invalid_data
long_message_refused_example =
    long_message_refused 5 playback_device1 tv named op_feature_abort 0 named_long

abbrev raw : CecMsg
raw = record {
  rx_ts = 0;
  len = 2;
  timeout = 0;
  sequence = 1;
  msg = 0x4f ∷ 0x36 ∷ replicate 14 0;
  reply = 0;
  rx_status = 0x01;
  tx_status = 0;
}

envelope-ne-panicked_example : envelope_try_from raw ≢ panicked
envelope-ne-panicked_example = envelope-ne-panicked raw refl

standby_short : length (cec_message_operand.to_bytes Message.standby) ≤ 14
unfolding to_bytes encode
standby_short = omega arith

envelope_of_message_example :
    envelope_try_from (record (fill_message tv playback_device1 Message.standby 0 0) {
      rx_ts = 7;
      sequence = 3;
      rx_status = 0x01;
    })
    ≡ ok (record {
      message = valid Message.standby;
      initiator = tv;
      destination = playback_device1;
      timestamp = 7;
      sequence = 3;
    })
envelope_of_message_example =
    envelope_of_message tv playback_device1 Message.standby 0 0 7 3 tt standby_short

abbrev vendor_block : DataBlock
vendor_block = record { header = 0x65; payload = 0x03 ∷ 0x0c ∷ 0x00 ∷ 0x12 ∷ 0x34 ∷ [] }

abbrev short_block : DataBlock
short_block = record { header = 0x22; payload = 0x01 ∷ 0x02 ∷ [] }

abbrev edid : List ℕ
edid =
    replicate 128 0
    ++ (2
        ∷ 3
        ∷ 0
        ∷ 0
        ∷ (write_blocks (short_block ∷ []) ++ (0x65 ∷ (vendor_block.payload ++ replicate 120 0))))

parse-ne-panicked_example : parse_hdmi_edid_pa (2 ∷ 3 ∷ []) ≢ panicked
parse-ne-panicked_example = parse-ne-panicked (2 ∷ 3 ∷ [])

vendor_block-IsHdmi : IsHdmi vendor_block 0x12 0x34 []
vendor_block-IsHdmi = ((omega arith, refl), refl, refl, omega arith)

parse_first_example : parse_hdmi_edid_pa edid ≡ ok (some (record { value = 0x1234 }))
parse_first_example =
    parse_first (replicate 128 0) 3 0 0 (short_block ∷ []) vendor_block 0x12 0x34 []
      (replicate 120 0) refl (((omega arith, refl), inl (omega arith)), tt) vendor_block-IsHdmi
      (omega arith) (omega arith)

zeros-IsByte : (n : ℕ) → All IsByte (replicate n 0)
zeros-IsByte zero = tt
zeros-IsByte (suc n) = (omega arith, zeros-IsByte n)

abbrev edid_head : List ℕ
edid_head = 2 ∷ 3 ∷ 0 ∷ 0 ∷ 0x22 ∷ 1 ∷ 2 ∷ 0x65 ∷ 0x03 ∷ 0x0c ∷ 0x00 ∷ 0x12 ∷ 0x34 ∷ []

edid_head-IsByte : All IsByte edid_head
edid_head-IsByte = omega arith

edid-IsByte : All IsByte edid
edid-IsByte =
    All-append IsByte (replicate 128 0) (edid_head ++ replicate 120 0) (zeros-IsByte 128)
      (All-append IsByte edid_head (replicate 120 0) edid_head-IsByte (zeros-IsByte 120))

parse_sound_example : HasHdmiBlock edid (record { value = 0x1234 })
parse_sound_example = parse_sound edid (record { value = 0x1234 }) edid-IsByte parse_first_example

abbrev one_address : LogAddrs
one_address = record {
  log_addr = 4 ∷ 0 ∷ 0 ∷ 0 ∷ [];
  num_log_addrs = 1;
  primary_device_types = 4 ∷ 0 ∷ 0 ∷ 0 ∷ [];
  log_addr_types = 3 ∷ 0 ∷ 0 ∷ 0 ∷ [];
}

-- It gives the addresses that are asked for, and has an event and a message.
abbrev responsive : Kernel
responsive = record {
  get_log_addrs = ok one_address;
  set_log_addrs = λ addrs. ok addrs;
  dequeue_event = ok (record { event = 1; lost_msgs = 0 });
  receive = λ timeout_ms. ok raw;
}

abbrev idle : Adapter
idle = record { tx_logical_address = unregistered_or_broadcast; internal_log_addrs = one_address }

abbrev playback_type : List LogicalAddressType
playback_type = LogicalAddressType.playback ∷ []

responsive_answers : (addrs : LogAddrs) → ok addrs ≢ panicked
responsive_answers addrs e = cc

abbrev five_types : List LogicalAddressType
five_types = replicate 5 LogicalAddressType.playback

set_logical_addresses_lem_example :
    (4 < 5
      → set_logical_addresses responsive five_types idle
        ≡ (err (out_of_range (at_most 4) 5 "logical addresses"), idle))
    × (5 ≤ 4
        → set_logical_addresses responsive five_types idle
          ≡ with_types responsive 5 idle (ok (requested five_types one_address)))
    × ((set_logical_addresses responsive five_types idle).0 ≢ panicked)
set_logical_addresses_lem_example =
    set_logical_addresses_lem responsive responsive_answers five_types idle refl refl

playback_set : (set_logical_addresses responsive playback_type idle).0 ≡ ok tt
unfolding set_logical_addresses check linux_cec.Core.Range.admits write_types store
    clear_logical_addresses assign_addresses
playback_set = refl

set_logical_addresses_tracks_example :
    (set_logical_addresses responsive playback_type idle).1.tx_logical_address
    ≡ first_address (set_logical_addresses responsive playback_type idle).1.internal_log_addrs
set_logical_addresses_tracks_example =
    set_logical_addresses_tracks responsive playback_type idle playback_set

abbrev standby_received : Envelope
standby_received = record {
  message = valid Message.standby;
  initiator = playback_device1;
  destination = unregistered_or_broadcast;
  timestamp = 0;
  sequence = 1;
}

abbrev both_results : List PollResult
both_results = state_change ∷ PollResult.message standby_received ∷ []

status_handled : (handle_status responsive got_all idle).0 ≡ ok both_results
unfolding handle_status envelope_try_from linux_cec.MessageEnum.try_from_bytes
    linux_cec.Core.Range.admits linux_cec.Operand.Fields.decode
status_handled = refl

handle_status_lem_example :
    (events : List PollResult) × (messages : List PollResult) × (both_results ≡ events ++ messages)
    × Reports responsive got_all events messages
    × Follows responsive idle events (handle_status responsive got_all idle).1
handle_status_lem_example = handle_status_lem responsive got_all idle both_results status_handled
