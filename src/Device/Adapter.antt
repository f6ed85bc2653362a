-- ===== src/Device/Adapter.antt =====
-- The logical addresses of a device, and what it does with a poll status (linux-cec/src/device.rs).
-- What the kernel answers to each request is an argument; a request that it refuses writes nothing.
pub mod Laws
pub mod Status
use linux_cec.Core.Range.{at_most}
use linux_cec.Operand.Primitive.{try_from_primitive}
use linux_cec.Prelude.{
  zero, ◌+◌, none, suc, false, ◌&&◌, [], ◌∷◌, ◌++◌, some, ltb, ◌==◌, true, length, List, Option,
  if◌then◌else◌, Bool, ℕ,
}
use linux_cec.Core.Slice.{index}
use linux_cec.Device.Envelope.{CecMsg, envelope_try_from, Envelope}
use linux_cec.Core.Error.{invalid_data, err, ok, panicked, Result, check, ◌>>=◌}
use mathlib.Core.Bool.{not}
use linux_cec.Core.LogicalAddress.{
  type_primary_device_type, logical_address_type_discriminant, logical_address,
  unregistered_or_broadcast, LogicalAddressType, LogicalAddress,
}
use linux_cec.Operand.Enums.Device.{
  PrimaryDeviceType, primary_device_type as primary_device_type_codes,
}

pub data Pin : Type 0 where
  cec_pin hot_plug_detect power5_v : Pin

pub data PinState : Type 0 where
  low high : PinState

pub record PinEvent : Type 0 where
  pub pin : Pin
  pub state : PinState

pub data PollStatus : Type 0 where
  nothing destroyed got_event_only got_message_only got_all : PollStatus

pub data PollResult : Type 0 where
  message : Envelope → PollResult
  pin_event : PinEvent → PollResult
  lost_messages : ℕ → PollResult
  state_change : PollResult

-- `cec_event`, as far as it is read.
pub record CecEvent : Type 0 where
  pub event : ℕ
  pub lost_msgs : ℕ

-- `cec_log_addrs`, as far as it is read: its arrays have four elements.
pub record LogAddrs : Type 0 where
  pub log_addr : List ℕ
  pub num_log_addrs : ℕ
  pub primary_device_types : List ℕ
  pub log_addr_types : List ℕ

-- `Device`, without the file.
pub record Adapter : Type 0 where
  pub tx_logical_address : LogicalAddress
  pub internal_log_addrs : LogAddrs

-- What the kernel answers on the file.
pub record Kernel : Type 0 where
  pub get_log_addrs : Result LogAddrs
  pub set_log_addrs : LogAddrs → Result LogAddrs
  pub dequeue_event : Result CecEvent
  pub receive : ℕ → Result CecMsg

abbrev pub got_message : PollStatus → Bool
got_message got_message_only = true
got_message got_all = true
got_message other = false

abbrev pub got_event : PollStatus → Bool
got_event got_event_only = true
got_event got_all = true
got_event other = false

-- `array[i] = x`
unfoldable pub store : List ℕ → ℕ → ℕ → Result (List ℕ)
store [] i x = panicked
store (b ∷ array) zero x = ok (x ∷ array)
store (b ∷ array) (suc i) x = store array i x >>= λ rest. ok (b ∷ rest)

-- `unwrap_or(LogicalAddress::Unregistered)`
abbrev pub or_unregistered : Result LogicalAddress → LogicalAddress
or_unregistered (ok address) = address
or_unregistered (err e) = unregistered_or_broadcast
or_unregistered panicked = unregistered_or_broadcast

unfoldable pub first_address : LogAddrs → LogicalAddress
unfolding index try_from_primitive
first_address addrs =
    or_unregistered (index addrs.log_addr 0 >>= try_from_primitive logical_address)

-- `Device::get_logical_addresses`, by the addresses that are left.
unfoldable pub read_addresses : ℕ → ℕ → LogAddrs → Result (List LogicalAddress)
unfolding index try_from_primitive
read_addresses zero i addrs = ok []
read_addresses (suc left) i addrs = do
  code ← index addrs.log_addr i
  address ← try_from_primitive logical_address code
  rest ← read_addresses left (i + 1) addrs
  ok (address ∷ rest)

abbrev pub addresses_read : Adapter → Result LogAddrs → Result (List LogicalAddress) × Adapter
addresses_read a (ok addrs) =
    (read_addresses addrs.num_log_addrs 0 addrs, record a { internal_log_addrs = addrs })
addresses_read a (err e) = (err e, a)
addresses_read a panicked = (panicked, a)

unfoldable pub get_logical_addresses : Kernel → Adapter → Result (List LogicalAddress) × Adapter
unfolding read_addresses
get_logical_addresses kernel a = addresses_read a kernel.get_log_addrs

abbrev pub device_type_code : Option PrimaryDeviceType → ℕ
device_type_code (some t) = primary_device_type_codes.discriminant t
device_type_code none = 0xff

-- The loop of `set_logical_addresses`.
unfoldable pub write_types : List LogicalAddressType → ℕ → LogAddrs → Result LogAddrs
unfolding store
write_types [] i addrs = ok addrs
write_types (t ∷ types) i addrs = do
  log_addr_types ← store addrs.log_addr_types i (logical_address_type_discriminant t)
  primary ← store addrs.primary_device_types i (device_type_code (type_primary_device_type t))
  write_types types (i + 1)
      (record addrs { log_addr_types = log_addr_types; primary_device_types = primary })

abbrev pub answered : (LogAddrs → Adapter) → Adapter → Result LogAddrs → Result (Unit {0}) × Adapter
answered after a (ok addrs) = (ok tt, after addrs)
answered after a (err e) = (err e, a)
answered after a panicked = (panicked, a)

unfoldable pub clear_logical_addresses : Kernel → Adapter → Result (Unit {0}) × Adapter
clear_logical_addresses kernel a =
    let addrs = record a.internal_log_addrs { num_log_addrs = 0 } in
    let b : Adapter = record {
      tx_logical_address = unregistered_or_broadcast;
      internal_log_addrs = addrs;
    } in
    answered (λ new. record b { internal_log_addrs = new }) b (kernel.set_log_addrs addrs)

-- The end of `set_logical_addresses`, for the number of addresses.
unfoldable pub assign_addresses : Kernel → ℕ → Adapter → Result (Unit {0}) × Adapter
unfolding first_address
assign_addresses kernel n a =
    let addrs = record a.internal_log_addrs { num_log_addrs = n } in
    answered
      (λ new. record {
        tx_logical_address = if n == 0 then a.tx_logical_address else first_address new;
        internal_log_addrs = new;
      })
      (record a { internal_log_addrs = addrs }) (kernel.set_log_addrs addrs)

abbrev pub if_cleared :
    (Adapter → Result (Unit {0}) × Adapter)
    → Result (Unit {0}) × Adapter
    → Result (Unit {0}) × Adapter
if_cleared next (ok u, a) = next a
if_cleared next (err e, a) = (err e, a)
if_cleared next (panicked, a) = (panicked, a)

abbrev pub with_types : Kernel → ℕ → Adapter → Result LogAddrs → Result (Unit {0}) × Adapter
with_types kernel n a (ok addrs) =
    let b = record a { internal_log_addrs = addrs } in
    if not (n == 0) && ltb 0 addrs.num_log_addrs
    then if_cleared (assign_addresses kernel n) (clear_logical_addresses kernel b)
    else assign_addresses kernel n b
with_types kernel n a (err e) = (err e, a)
with_types kernel n a panicked = (panicked, a)

unfoldable pub set_logical_addresses :
    Kernel → List LogicalAddressType → Adapter → Result (Unit {0}) × Adapter
unfolding check write_types clear_logical_addresses assign_addresses
set_logical_addresses kernel types a = with_types kernel (length types) a (
    check (at_most 4) (length types) "logical addresses" >>= λ u.
    write_types types 0 a.internal_log_addrs)

abbrev pub pin : Pin → PinState → Result PollResult
pin p s = ok (pin_event (record { pin = p; state = s }))

-- The events but that of a state change, by their numbers.
unfoldable pub event_result : CecEvent → Result PollResult
event_result ev =
    if ev.event == 2
    then ok (lost_messages ev.lost_msgs)
    else if ev.event == 3
    then pin cec_pin low
    else if ev.event == 4
    then pin cec_pin high
    else if ev.event == 5
    then pin hot_plug_detect low
    else if ev.event == 6
    then pin hot_plug_detect high
    else if ev.event == 7
    then pin power5_v low
    else if ev.event == 8
    then pin power5_v high
    else err invalid_data

abbrev pub initiator_of : LogAddrs → LogicalAddress
initiator_of addrs =
    if ltb 0 addrs.num_log_addrs then first_address addrs else unregistered_or_broadcast

abbrev pub refreshed : Adapter → Result LogAddrs → Result (List PollResult) × Adapter
refreshed a (ok addrs) = (
  ok (state_change ∷ []),
  record { tx_logical_address = initiator_of addrs; internal_log_addrs = addrs },
)
refreshed a (err e) = (err e, a)
refreshed a panicked = (panicked, a)

abbrev pub after_event : Kernel → Adapter → Result CecEvent → Result (List PollResult) × Adapter
after_event kernel a (ok ev) =
    if ev.event == 1
    then refreshed a kernel.get_log_addrs
    else ((event_result ev >>= λ result. ok (result ∷ [])), a)
after_event kernel a (err e) = (err e, a)
after_event kernel a panicked = (panicked, a)

-- `Device::rx_message`, behind the results of the event.
abbrev pub with_message : Kernel → PollStatus → List PollResult → Result (List PollResult)
with_message kernel status results =
    if got_message status
    then (kernel.receive 1 >>= envelope_try_from >>= λ e. ok (results ++ (message e ∷ [])))
    else ok results

unfoldable pub handle_status : Kernel → PollStatus → Adapter → Result (List PollResult) × Adapter
unfolding event_result envelope_try_from first_address
handle_status kernel status a =
    let (results, b) =
      (if got_event status then after_event kernel a kernel.dequeue_event else (ok [], a)) in
    (results >>= with_message kernel status, b)
