-- ===== src/Cecd/Task/Frame/Polls.antt =====
-- What the handling of a poll result keeps (cecd/src/device.rs).
use linux_cec.Operand.Newtype.{VendorId}
use linux_cec.Core.LogicalAddress.{logical_address_discriminant, LogicalAddress}
use linux_cec.Core.PhysicalAddress.{PhysicalAddress}
use linux_cec.Cecd.Edid.{bytes_eq}
use linux_cec.Core.Error.{Result}
use linux_cec.Cecd.Task.Frame.Answers.{handle_message-Kept}
use linux_cec.Cecd.Task.Wake.{drain, with_logical_address}
use linux_cec.Cecd.Task.Logic.{Keeps, if-Keeps}
use linux_cec.Cecd.Task.Frame.{
  not, announce-Kept, with_logical_address-Kept, drain-Kept, configure-Kept, call-Kept, then-Kept,
  perform-Kept, IsFrame,
}
use linux_cec.Cecd.Task.Keys.{is_empty}
use linux_cec.Prelude.{
  ltb, false, ◌==◌, ◌&&◌, true, ◌≤◌, map, ◌-◌, arith, if◌then◌else◌, List, ℕ, Option, Bool,
}
use linux_cec.Cecd.Task.Device.{or_empty, or_invalid_address, query_audio_system}
use linux_cec.Cecd.Task.Poll.{
  same_option, vendor_number, refresh, update_addresses, announce, log_addr_retries, configure,
  handle_state_change, request_source, update_phys_addr, update_vendor_id, retry_registration,
  handle_poll_result, update_log_addrs, got_addresses,
}
use linux_cec.Device.Adapter.{pin_event, state_change, lost_messages, message, PollResult}
use linux_cec.Cecd.Task.{
  query_audio, spawn, vendor_id_changed, physical_address_changed, State, get_vendor_id,
  get_logical_addresses, perform, get_physical_address, logical_addresses_changed, pure, activate,
  read_config, modify, Env, ◌>>=◌, ◌>>◌,
}

module _ (P : State → Type 0) (env : Env) (frame : IsFrame P env) where
  -- Writing the tries that are left and what the interface has cached of the addresses.
  written :
      (s : State) (tries phys_addr : ℕ) (log_addrs : List ℕ) (vendor_id : Option ℕ)
      → (s.log_addr_try ≤ log_addr_retries → tries ≤ log_addr_retries)
      → P s
      → P (record s {
        log_addr_try = tries;
        cached_phys_addr = phys_addr;
        cached_log_addrs = log_addrs;
        cached_vendor_id = vendor_id;
      })
  written s tries phys_addr log_addrs vendor_id bound h =
      frame.kept_by_write s tries s.awaiting_wake s.connector s.queue phys_addr log_addrs vendor_id
        bound h

  update_phys_addr-Kept : (n : ℕ) → Keeps P (update_phys_addr env n)
  unfolding update_phys_addr
  update_phys_addr-Kept n s =
      if-Keeps P (s.cached_phys_addr == n) (pure tt)
        (modify (λ s. record s { cached_phys_addr = n })
          >> announce env (physical_address_changed n))
        (λ s h. h)
        (then-Kept P env frame (modify (λ s. record s { cached_phys_addr = n }))
          (announce env (physical_address_changed n))
          (λ s h. written s s.log_addr_try n s.cached_log_addrs s.cached_vendor_id (λ le. le) h)
          (announce-Kept P env frame (physical_address_changed n)))
        s

  update_vendor_id-Kept : (n : Option ℕ) → Keeps P (update_vendor_id env n)
  unfolding update_vendor_id
  update_vendor_id-Kept n s =
      if-Keeps P (same_option s.cached_vendor_id n) (pure tt)
        (modify (λ s. record s { cached_vendor_id = n }) >> announce env (vendor_id_changed n))
        (λ s h. h)
        (then-Kept P env frame (modify (λ s. record s { cached_vendor_id = n }))
          (announce env (vendor_id_changed n))
          (λ s h. written s s.log_addr_try s.cached_phys_addr s.cached_log_addrs n (λ le. le) h)
          (announce-Kept P env frame (vendor_id_changed n)))
        s

  pub request_source-Kept : Keeps P (request_source env)
  unfolding request_source
  request_source-Kept =
      call-Kept P env frame read_config
        (λ config.
          if config.request_active_source then with_logical_address env activate else pure tt)
        tt
        (λ config.
          if-Keeps P config.request_active_source (with_logical_address env activate) (pure tt)
            (with_logical_address-Kept P env frame activate) (λ s h. h))

  pub query_audio_system-Kept : Keeps P (query_audio_system env)
  unfolding query_audio_system
  query_audio_system-Kept = perform-Kept P env frame (spawn query_audio) tt

  got_addresses-Kept : Keeps P (got_addresses env)
  unfolding got_addresses
  got_addresses-Kept =
      then-Kept P env frame (drain env) (query_audio_system env >> request_source env)
        (drain-Kept P env frame)
        (then-Kept P env frame (query_audio_system env) (request_source env) query_audio_system-Kept
          request_source-Kept)

  reset_tries-Kept :
      (empty : Bool)
      → Keeps P
          (if empty then modify (λ s. record s { log_addr_try = log_addr_retries }) else pure tt)
  reset_tries-Kept true s h =
      written s log_addr_retries s.cached_phys_addr s.cached_log_addrs s.cached_vendor_id
        (λ le. omega arith) h
  reset_tries-Kept false s h = h

  update_log_addrs-Kept : (xs : List ℕ) → Keeps P (update_log_addrs env xs)
  unfolding update_log_addrs
  update_log_addrs-Kept xs s h =
      then-Kept P env frame
        (if is_empty xs
          then modify (λ s. record s { log_addr_try = log_addr_retries })
          else pure tt)
        (announce env (logical_addresses_changed xs)
          >> (if is_empty xs then pure tt else got_addresses env))
        (reset_tries-Kept (is_empty xs))
        (then-Kept P env frame (announce env (logical_addresses_changed xs))
          (if is_empty xs then pure tt else got_addresses env)
          (announce-Kept P env frame (logical_addresses_changed xs))
          (if-Keeps P (is_empty xs) (pure tt) (got_addresses env) (λ s h. h) got_addresses-Kept))
        (record s { cached_log_addrs = xs })
        (written s s.log_addr_try s.cached_phys_addr xs s.cached_vendor_id (λ le. le) h)

  retried :
      (b : Bool) (s : State)
      → P s
      → P
          ((if b
              then modify (λ t. record t { log_addr_try = s.log_addr_try - 1 }) >> configure env
              else pure tt)
            s).1
  retried true s h =
      configure-Kept P env frame (record s { log_addr_try = s.log_addr_try - 1 })
        (written s (s.log_addr_try - 1) s.cached_phys_addr s.cached_log_addrs s.cached_vendor_id
          (λ le. omega arith) h)
  retried false s h = h

  retry_registration-Kept : (xs : List ℕ) (n : ℕ) → Keeps P (retry_registration env xs n)
  unfolding retry_registration
  retry_registration-Kept xs n s h =
      retried (is_empty xs && (not (n == 0xffff) && ltb 0 s.log_addr_try)) s h

  changed_addresses-Kept :
      (same : Bool) (xs : List ℕ) (n : ℕ)
      → Keeps P (if same then retry_registration env xs n else update_log_addrs env xs)
  changed_addresses-Kept same xs n =
      if-Keeps P same (retry_registration env xs n) (update_log_addrs env xs)
        (retry_registration-Kept xs n) (update_log_addrs-Kept xs)

  update_addresses-Kept : (xs : List ℕ) (n : ℕ) → Keeps P (update_addresses env xs n)
  unfolding update_addresses
  update_addresses-Kept xs n s h = changed_addresses-Kept (bytes_eq s.cached_log_addrs xs) xs n s h

  refresh-Kept :
      (a : Result PhysicalAddress) (xs : Result (List LogicalAddress))
      (v : Result (Option VendorId))
      → Keeps P (refresh env a xs v)
  unfolding refresh
  refresh-Kept a xs v =
      then-Kept P env frame (update_phys_addr env (or_invalid_address a).value)
        (update_vendor_id env (vendor_number v)
          >> update_addresses env (map logical_address_discriminant (or_empty xs))
              (or_invalid_address a).value)
        (update_phys_addr-Kept (or_invalid_address a).value)
        (then-Kept P env frame (update_vendor_id env (vendor_number v))
          (update_addresses env (map logical_address_discriminant (or_empty xs))
            (or_invalid_address a).value)
          (update_vendor_id-Kept (vendor_number v))
          (update_addresses-Kept (map logical_address_discriminant (or_empty xs))
            (or_invalid_address a).value))

  handle_state_change-Kept : Keeps P (handle_state_change env)
  unfolding handle_state_change
  handle_state_change-Kept =
      call-Kept P env frame get_physical_address
        (λ a. perform env get_logical_addresses >>= λ xs.
          perform env get_vendor_id >>= refresh env a xs)
        tt
        (λ a.
          call-Kept P env frame get_logical_addresses
            (λ xs. perform env get_vendor_id >>= refresh env a xs) tt
            (λ xs. call-Kept P env frame get_vendor_id (refresh env a xs) tt (refresh-Kept a xs)))

  pub handle_poll_result-Kept : (r : PollResult) → Keeps P (handle_poll_result env r)
  unfolding handle_poll_result
  handle_poll_result-Kept (message e) = handle_message-Kept P env frame e
  handle_poll_result-Kept (lost_messages n) = λ s h. h
  handle_poll_result-Kept state_change = handle_state_change-Kept
  handle_poll_result-Kept (pin_event p) = λ s h. h
