-- ===== src/Cecd/Task.antt =====
-- The task of a device (cecd/src/device.rs): its state, and the calls that it makes. What a call
-- answers is the environment's: the kernel, the bus, the input device, and the system that other
-- tasks share. The answer may depend on all calls before.
pub mod Keys
pub mod Device
pub mod Wake
pub mod Answer
pub mod Poll
pub mod Commands
pub mod Logic
pub mod Frame
pub mod Consistent
pub mod Released
pub mod Held
pub mod Replies
pub mod Waking
pub mod Sending
pub mod Tracking
use linux_cec.Operand.Newtype.{VendorId}
use linux_cec.Core.PhysicalAddress.{PhysicalAddress}
use linux_cec.Core.LogicalAddress.{LogicalAddress}
use linux_cec.Operand.UiCommand.{UiCommand}
use linux_cec.Message.Data.{Message}
use linux_cec.Prelude.{String, Option, ℕ, ◌∷◌, List, Bool}
use linux_cec.Core.Error.{panicked, err, ok, Result, Error}
use linux_cec.Device.Envelope.{Envelope}

-- `DrmConnector`, as a configuration of the device returns it.
pub record DrmConnector : Type 0 where
  pub card : ℕ
  pub connector : String
  pub physical_address : PhysicalAddress

pub data ConnectorInfo : Type 0 where
  no_connector : ConnectorInfo
  drm_connector : ℕ → ℕ → ConnectorInfo
  unknown_connector : ℕ → List ℕ → ConnectorInfo

-- What `anyhow::Error` holds: an error of linux-cec, or one of another crate.
pub data Failure : Type 0 where
  cec : Error → Failure
  foreign : ℕ → Failure

pub data Outcome (A : Type 0) : Type 0 where
  done : A → Outcome A
  failed : Failure → Outcome A
  panic : Outcome A

pub data Signal : Type 0 where
  received_message : ℕ → ℕ → ℕ → List ℕ → Signal
  user_control_pressed : List ℕ → ℕ → Signal
  user_control_released : ℕ → Signal
  physical_address_changed : ℕ → Signal
  vendor_id_changed : Option ℕ → Signal
  logical_addresses_changed : List ℕ → Signal
  active_changed : Bool → Signal
  audio_logical_address_changed : ℕ → Signal

-- How a handler of another process answers.
pub data HandlerReply : Type 0 where
  timed_out : HandlerReply
  replied : Bool → ℕ → HandlerReply
  raised : HandlerReply

-- The parts of the configuration that the task reads.
pub record Config : Type 0 where
  pub allow_standby : Bool
  pub request_active_source : Bool
  pub uinput : Bool
  pub mappings : List (UiCommand × ℕ)

-- `SystemMessage`
pub data SystemMessage : Type 0 where
  wake : Bool → Bool → SystemMessage
  standby : Bool → Bool → SystemMessage
  reload_config : SystemMessage
  reconfigure_connector : ConnectorInfo → SystemMessage

-- The futures that the task starts and does not wait for.
pub data Spawned : Type 0 where
  request_active query_audio : Spawned

pub data Call : Type 0 where
  get_physical_address get_logical_addresses get_vendor_id read_config suspend sleep : Call
  tx_message : Message → LogicalAddress → Call
  configure_dev : Option DrmConnector → Call
  to_connector_info : DrmConnector → Call
  emit : Signal → Call
  get_message_handler : ℕ → Call
  handle_message_remote : ℕ → Envelope → Call
  send_key : ℕ → Bool → Call
  open_uinput : List (UiCommand × ℕ) → Call
  drop_uinput : Call
  spawn : Spawned → Call

-- The type of what a call answers.
abbrev pub Reply : Call → Type 0
Reply get_physical_address = Result PhysicalAddress
Reply get_logical_addresses = Result (List LogicalAddress)
Reply get_vendor_id = Result (Option VendorId)
Reply read_config = Config
Reply suspend = Outcome (Unit {0})
Reply sleep = Unit {0}
Reply (tx_message message destination) = Result (Unit {0})
Reply (configure_dev connector) = Outcome (Option DrmConnector)
Reply (to_connector_info connector) = Outcome ConnectorInfo
Reply (emit signal) = Outcome (Unit {0})
Reply (get_message_handler opcode) = Bool
Reply (handle_message_remote opcode envelope) = HandlerReply
Reply (send_key key pressed) = Outcome (Unit {0})
Reply (open_uinput mappings) = Outcome (Unit {0})
Reply drop_uinput = Unit {0}
Reply (spawn future) = Unit {0}

-- The calls so far, the last one first, and what answers the next.
abbrev pub History : Type 0
History = List Call

abbrev pub Env : Type 0
Env = (c : Call) → History → Reply c

-- What is put off until there is a logical address.
pub data Deferred : Type 0 where
  report_power_on activate wake_tv : Deferred

-- `DeviceTask`, with the cached properties of its interface.
pub record State : Type 0 where
  pub active_key : Option UiCommand
  pub log_addr_try : ℕ
  pub awaiting_wake : Bool
  pub active : Bool
  pub connector : Option DrmConnector
  pub audio_log_addr : LogicalAddress
  pub queue : List Deferred
  pub cached_phys_addr : ℕ
  pub cached_log_addrs : List ℕ
  pub cached_vendor_id : Option ℕ
  pub cached_active : Bool
  pub cached_audio_log_addr : ℕ
  pub uinput : Option (List (UiCommand × ℕ))
  pub history : History

-- A method of the task: an error leaves what was written.
abbrev pub Action : Type 0 → Type 0
Action A = State → Outcome A × State

module _ {A : Type 0} where
  abbrev pub pure : A → Action A
  pure a s = (done a, s)

  abbrev pub finish : Outcome A → Action A
  finish r s = (r, s)

  abbrev pub gets : (State → A) → Action A
  gets f s = (done (f s), s)

infixl 5 ◌>>=◌ ◌>>◌
abbrev pub ◌>>=◌ : {A B : Type 0} → Action A → (A → Action B) → Action B
◌>>=◌ m f s =
    let (r, s') = m s in
    elim r [ done a ↦ f a s' | failed e ↦ (failed e, s') | panic ↦ (panic, s') ]

abbrev pub ◌>>◌ : {A B : Type 0} → Action A → Action B → Action B
m >> k = m >>= λ _. k

abbrev pub modify : (State → State) → Action (Unit {0})
modify f s = (done tt, f s)

-- An error of linux-cec on its way through `?`.
abbrev pub outcome : {A : Type 0} → Result A → Outcome A
outcome (ok a) = done a
outcome (err e) = failed (cec e)
outcome panicked = panic

abbrev pub lift : {A : Type 0} → Result A → Action A
lift r = finish (outcome r)

-- A call, with its answer.
abbrev pub perform : Env → (c : Call) → Action (Reply c)
perform env c s = (done (env c s.history), record s { history = c ∷ s.history })
