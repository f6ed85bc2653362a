-- ===== src/Cecd/Task/Device.antt =====
-- The operations of `Device` that send messages (linux-cec/src/device.rs), over the calls of the
-- task, and `set_active`, `pending_activate` and `query_audio_system` (cecd/src/device.rs).
use linux_cec.Cecd.Task.Keys.{is_empty}
use linux_cec.Prelude.{bool_eq, true, [], none, some, if◌then◌else◌, List, Option, Bool}
use linux_cec.Core.PhysicalAddress.{invalid, PhysicalAddress}
use linux_cec.Message.Data.{
  image_view_on, give_system_audio_mode_status, text_view_on, active_source, request_active_source,
  Message,
}
use linux_cec.Operand.UiCommand.{UiCommand}
use linux_cec.Core.Error.{panicked, err, ok, Result}
use linux_cec.Core.LogicalAddress.{tv, audio_system, unregistered_or_broadcast, LogicalAddress}
use linux_cec.Cecd.Task.{
  active_changed, emit, modify, panic, finish, pure, query_audio, lift, request_active, spawn,
  get_logical_addresses, tx_message, get_physical_address, gets, Spawned, perform, Env, Action,
  ◌>>=◌, ◌>>◌,
}

-- `unwrap_or_default`, for a list and for an address.
abbrev pub or_empty {ℓ} : {A : Type ℓ} → Result (List A) → List A
or_empty (ok xs) = xs
or_empty (err e) = []
or_empty panicked = []

abbrev pub or_invalid_address : Result PhysicalAddress → PhysicalAddress
or_invalid_address (ok address) = address
or_invalid_address (err e) = invalid
or_invalid_address panicked = invalid

abbrev pub broadcast : LogicalAddress
broadcast = unregistered_or_broadcast

-- What the two futures do: an error is only written to the log.
abbrev pub request_of : Spawned → Message × LogicalAddress
request_of request_active = (request_active_source, broadcast)
request_of query_audio = (give_system_audio_mode_status, audio_system)

module _ (env : Env) where
  -- A message that is sent with `?`.
  abbrev pub tx : Message → LogicalAddress → Action (Unit {0})
  tx message destination = perform env (tx_message message destination) >>= lift

  abbrev pub physical_address : Action PhysicalAddress
  physical_address = perform env get_physical_address >>= lift

  abbrev pub own_source : Result PhysicalAddress → Action (Result (Unit {0}))
  own_source (ok address) = perform env (tx_message (active_source address) broadcast)
  own_source (err e) = pure (err e)
  own_source panicked = finish panic

  -- `Device::set_active_source`, with its result as a value.
  unfoldable pub set_active_source : Option PhysicalAddress → Action (Result (Unit {0}))
  set_active_source (some address) = own_source (ok address)
  set_active_source none = perform env get_physical_address >>= own_source

  -- `Device::wake`
  unfoldable pub device_wake : Bool → Bool → Action (Unit {0})
  device_wake set_active text_view = do
    tx (if text_view then text_view_on else image_view_on) tv
    if set_active
        then (physical_address >>= λ address. tx (active_source address) broadcast)
        else pure tt

  -- `Device::standby`
  unfoldable pub device_standby : LogicalAddress → Action (Unit {0})
  device_standby target = tx Message.standby target

  -- `Device::press_user_control` and `release_user_control`
  unfoldable pub press_user_control : UiCommand → LogicalAddress → Action (Unit {0})
  press_user_control ui_command target = tx (Message.user_control_pressed ui_command) target

  unfoldable pub release_user_control : LogicalAddress → Action (Unit {0})
  release_user_control target = tx Message.user_control_released target

  -- A property is cached before its change is announced.
  unfoldable pub announce_active : Bool → Action (Unit {0})
  announce_active active = do
    cached ← gets (λ s. s.cached_active)
    if bool_eq cached active
        then pure tt
        else (modify (λ s. record s { cached_active = active })
            >> (perform env (emit (active_changed active)) >>= finish))

  unfoldable pub set_active : Bool → Action (Unit {0})
  unfolding announce_active
  set_active active = do
    old ← gets (λ s. s.active)
    if bool_eq old active
        then pure tt
        else (modify (λ s. record s { active = active }) >> announce_active active)

  unfoldable pub pending_activate : Action (Unit {0})
  unfolding set_active
  pending_activate = perform env (spawn request_active) >> set_active true

  unfoldable pub query_audio_system : Action (Unit {0})
  query_audio_system = perform env (spawn query_audio)

  unfoldable pub run_spawned : Spawned → Action (Unit {0})
  run_spawned future = do
    addresses ← perform env get_logical_addresses
    if is_empty (or_empty addresses)
        then pure tt
        else (perform env (tx_message (request_of future).0 (request_of future).1) >> pure tt)
