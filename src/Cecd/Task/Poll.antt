-- ===== src/Cecd/Task/Poll.antt =====
-- What the task does with a poll result: `handle_poll_result` (cecd/src/device.rs).
use linux_cec.Core.PhysicalAddress.{PhysicalAddress}
use linux_cec.Cecd.Edid.{bytes_eq}
use linux_cec.Core.LogicalAddress.{LogicalAddress, logical_address_discriminant}
use linux_cec.Cecd.Task.Keys.{is_empty}
use linux_cec.Cecd.Task.Device.{or_invalid_address, or_empty, query_audio_system}
use linux_cec.Operand.Newtype.{VendorId}
use linux_cec.Cecd.Task.Answer.{handle_message}
use linux_cec.Cecd.Task.Wake.{drain, with_logical_address}
use linux_cec.Prelude.{
  ◌^◌, ◌*◌, bit_or, none, false, true, map, ◌-◌, ltb, ◌&&◌, some, ◌==◌, if◌then◌else◌, Bool, ℕ,
  Option, List,
}
use linux_cec.Core.Error.{panicked, err, ok, Result}
use mathlib.Core.Bool.{not}
use linux_cec.Cecd.Task.{
  logical_addresses_changed, physical_address_changed, get_vendor_id, get_logical_addresses,
  vendor_id_changed, finish, activate, emit, get_physical_address, configure_dev, pure, read_config,
  perform, gets, Signal, modify, Env, Action, ◌>>=◌, ◌>>◌,
}
use linux_cec.Prelude.{◌∷◌}
use linux_cec.Cecd.Edid.{bytes_eq}
use linux_cec.Device.Adapter.{PollResult, message, lost_messages, state_change, pin_event}

abbrev pub octets_into : List ℕ → ℕ
octets_into (a ∷ b ∷ c ∷ rest) = bit_or (bit_or (a * 2 ^ 16) (b * 2 ^ 8)) c
octets_into other = 0

-- `From<VendorId> for i32`, for the three octets that an identifier has.
unfoldable pub vendor_into : VendorId → ℕ
vendor_into id = octets_into id.octets

-- A vendor identifier as an `i32`; `none` stands for -1, which no identifier is.
abbrev pub vendor_number : Result (Option VendorId) → Option ℕ
vendor_number (ok (some id)) = some (vendor_into id)
vendor_number (ok none) = none
vendor_number (err e) = none
vendor_number panicked = none

abbrev pub is_none : Option ℕ → Bool
is_none none = true
is_none (some x) = false

abbrev pub same_option : Option ℕ → Option ℕ → Bool
same_option none x = is_none x
same_option (some x) none = false
same_option (some x) (some y) = x == y

-- `LOG_ADDR_RETRIES`
abbrev pub log_addr_retries : ℕ
log_addr_retries = 20

module _ (env : Env) where
  abbrev pub announce : Signal → Action (Unit {0})
  announce signal = perform env (emit signal) >>= finish

  unfoldable pub update_phys_addr : ℕ → Action (Unit {0})
  update_phys_addr phys_addr = do
    cached ← gets (λ s. s.cached_phys_addr)
    if cached == phys_addr
        then pure tt
        else (modify (λ s. record s { cached_phys_addr = phys_addr })
            >> announce (physical_address_changed phys_addr))

  unfoldable pub update_vendor_id : Option ℕ → Action (Unit {0})
  update_vendor_id vendor_id = do
    cached ← gets (λ s. s.cached_vendor_id)
    if same_option cached vendor_id
        then pure tt
        else (modify (λ s. record s { cached_vendor_id = vendor_id })
            >> announce (vendor_id_changed vendor_id))

  -- Asking for the active source, where it is configured.
  unfoldable pub request_source : Action (Unit {0})
  unfolding with_logical_address
  request_source = do
    config ← perform env read_config
    if config.request_active_source then with_logical_address env activate else pure tt

  -- The device has got its first logical addresses, or others.
  unfoldable pub got_addresses : Action (Unit {0})
  unfolding drain query_audio_system request_source
  got_addresses = drain env >> (query_audio_system env >> request_source)

  unfoldable pub update_log_addrs : List ℕ → Action (Unit {0})
  unfolding got_addresses
  update_log_addrs log_addrs = do
    modify (λ s. record s { cached_log_addrs = log_addrs })
    if is_empty log_addrs
        then modify (λ s. record s { log_addr_try = log_addr_retries })
        else pure tt
    announce (logical_addresses_changed log_addrs)
    if is_empty log_addrs then pure tt else got_addresses

  -- `self.connector = configure_dev(...).await?`
  unfoldable pub configure : Action (Unit {0})
  configure = do
    old ← gets (λ s. s.connector)
    new ← perform env (configure_dev old) >>= finish
    modify (λ s. record s { connector = new })

  unfoldable pub retry_registration : List ℕ → ℕ → Action (Unit {0})
  unfolding configure
  retry_registration log_addrs phys_addr = do
    tries ← gets (λ s. s.log_addr_try)
    if is_empty log_addrs && (not (phys_addr == 0xffff) && ltb 0 tries)
        then (modify (λ s. record s { log_addr_try = tries - 1 }) >> configure)
        else pure tt

  unfoldable pub update_addresses : List ℕ → ℕ → Action (Unit {0})
  unfolding update_log_addrs retry_registration
  update_addresses log_addrs phys_addr = do
    cached ← gets (λ s. s.cached_log_addrs)
    if bytes_eq cached log_addrs
        then retry_registration log_addrs phys_addr
        else update_log_addrs log_addrs

  -- What is read of the device is compared with what is cached.
  unfoldable pub refresh :
      Result PhysicalAddress
      → Result (List LogicalAddress)
      → Result (Option VendorId)
      → Action (Unit {0})
  unfolding update_phys_addr update_vendor_id update_addresses
  refresh address addresses id = do
    update_phys_addr (or_invalid_address address).value
    update_vendor_id (vendor_number id)
    update_addresses (map logical_address_discriminant (or_empty addresses))
        (or_invalid_address address).value

  unfoldable pub handle_state_change : Action (Unit {0})
  unfolding refresh
  handle_state_change = do
    address ← perform env get_physical_address
    addresses ← perform env get_logical_addresses
    id ← perform env get_vendor_id
    refresh address addresses id

  unfoldable pub handle_poll_result : PollResult → Action (Unit {0})
  unfolding handle_message handle_state_change
  handle_poll_result (message envelope) = handle_message env envelope
  handle_poll_result (lost_messages n) = pure tt
  handle_poll_result state_change = handle_state_change
  handle_poll_result (pin_event e) = pure tt
