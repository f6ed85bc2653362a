-- ===== src/Lib.antt =====
-- linux-cec: the codecs of CEC and CDC messages, and the task of a device in the daemon.
--
-- linux-cec speaks HDMI-CEC over the kernel's interface. Its messages are an enum whose codec is
-- derived (linux-cec-macros/src/lib.rs); the fields of a message are operands, each with a codec of
-- the trait OperandEncodable (linux-cec/src/operand.rs); lengths and values are checked against a
-- Range, and errors in a field are moved by its offset in the message (linux-cec/src/lib.rs). CDC
-- messages (linux-cec/src/cdc.rs) are an enum of the same kind, and an operand of a CEC message. A
-- device (linux-cec/src/device.rs) writes a message into a raw one for the kernel, and reads what the
-- kernel receives as an envelope. The daemon (cecd) runs a task for each device
-- (cecd/src/device.rs): it answers messages, presses and releases the keys of an input device
-- (cecd/src/uinput.rs), asks handlers of other processes (cecd/src/message_handler.rs), follows which
-- source is active, and wakes the TV or puts it in standby when the system says so. Where a display
-- is connected, the physical address comes from its EDID.
--
-- The files:
-- - Prelude: the names of the libraries, Boolean tests, lists over the native numbers, and shifts and
--   masks as arithmetic.
-- - Core: Range, Error with the results of fallible code, slices, LogicalAddress and
--   PhysicalAddress. A result has a third case for a panic, so that a theorem can say that there is
--   none. `bytes[i]`, `&bytes[i..]`, `&bytes[i..j]` and `&bytes[..n]` panic out of bounds, and so do
--   `todo!` and `unreachable!`.
-- - Operand/Encodable: the trait as a record of operations, and the laws that each codec owes.
-- - Operand/OneByte, Primitive, Flags, Bitfields: operands of one byte, as derive(Operand) makes them.
--   Operand/Enums has the enums with the discriminants of linux-cec-sys/src/constants.rs.
-- - Operand/Scalars, Newtype, Ranged, Optional: u8, u16, bool, [u8; S], PhysicalAddress, VendorId,
--   Delay, AudioVolumeLevel, BcdByte and Option.
-- - Operand/Buffer: BoundedBufferOperand. Its loop has fuel for one element more than the capacity,
--   which is enough since every element that is read fills one place.
-- - Operand/Tagged: TaggedLengthBuffer, with DeviceFeatures and RcProfile.
-- - Operand/Fields, Structs: named fields in order, and the structs whose codec is derived.
-- - Operand/Refined, Headed: AtscData and ChannelId, which are words that are looked into, and
--   DigitalServiceId, RecordSource, TimerStatusData and ExternalSource, whose first byte or length
--   says what follows.
-- - Operand/Tuner, UiCommand: TunerDeviceInfo, whose length says what it holds, and UiCommand, of which
--   the variants without a parameter are an enum of their own.
-- - MessageEnum: what derive(MessageEnum) generates, over a record of an enum's variants.
-- - Cdc: the CDC messages and their operands, as an instance of MessageEnum.
-- - Message: the CEC messages of linux-cec/src/message.rs, with the fields of each opcode, and how each
--   opcode may be addressed.
-- - Device/Envelope: cec_msg, MessageData, Envelope and its TryFrom, and tx_rx_message with the
--   kernel's CEC_TRANSMIT as an argument.
-- - Device/Adapter: the logical addresses of a device, and handle_status, with a record of what the
--   kernel answers as an argument.
-- - Cecd/Edid: DrmConnector::parse_hdmi_edid_pa. Its loops have fuel for one round more than the EDID
--   has bytes, which is enough since every round moves forward; out of fuel is a panic here, so that
--   it never panics says both. Total, Sound and Complete hold the proofs.
-- - Cecd/Task: DeviceTask as a record, the calls that it makes, and the monad of its methods: an error
--   leaves what was written. Keys is the input device, Device the operations that send messages and
--   set_active, Wake the loop of wake and what waits for a logical address, Answer handle_message,
--   Poll handle_poll_result, Commands handle_system_message and the states that run reaches. The
--   proofs: Logic and Frame carry an invariant through the whole task from the few methods that write
--   what it reads, and Consistent and Released are two; Held, Tracking, Replies, Sending and Waking are
--   about single methods.
-- - Tests: runs at concrete inputs.
--
-- A byte, and a number of 16 bits, is a native number with a bound among the hypotheses; what is read
-- from bytes has the bound by proof. A `usize` is a number without bound: it holds lengths of
-- messages and values of bytes. A shift is a product or a quotient by a power of two, a mask is the
-- native operation on bits. Constants of linux-cec-sys are written as numerals.
--
-- What a call of the task answers is an environment's: a function of the call and of all calls before
-- it, so that a theorem for every environment holds whatever the kernel, the bus and the other tasks
-- do. A record of all calls is part of the state. Both futures that the task starts are events of
-- their own, which the environment runs at any time, and so are the results of a poll and the
-- messages of the system. Opening the input device is one call, which may fail. The two loops of the
-- task are on the number of rounds left, 2 for waking and 4 for a reply, as in the code.
--
-- Not modelled: timeouts, Display, FromStr and serde (linux-cec/src/lib.rs), the poller and the
-- modes of a device (linux-cec/src/device.rs), the system that the tasks share
-- (cecd/src/system.rs), the configuration (cecd/src/config.rs), repeated keys and the paths of a
-- connector (cecd/src/device.rs), the interfaces of the bus (cecd/src/dbus.rs) and the proxy
-- (cecd-proxy), which call third-party crates for D-Bus, udev and uinput.
pub mod Prelude
pub mod Core
pub mod Operand
pub mod MessageEnum
pub mod Cdc
pub mod Message
pub mod Device
pub mod Cecd
pub mod Tests
