-- ===== src/Cecd/Task/Frame/Events.antt =====
-- What the events of the task keep, and so what holds in every state that is reached
-- (cecd/src/device.rs).
use linux_cec.Message.Data.{Message, inactive_source}
use linux_cec.Core.LogicalAddress.{tv}
use linux_cec.Cecd.Task.Wake.{with_logical_address}
use linux_cec.Cecd.Task.Logic.{Keeps, >>=-Keeps, ignore-Keeps, if-Keeps}
use linux_cec.Cecd.Task.Frame.{
  not, with_logical_address-Kept, configure-Kept, call-Kept, then-Kept, tx-Kept, IsFrame,
}
use linux_cec.Cecd.Task.Keys.{is_empty, configure_uinput}
use linux_cec.Prelude.{◌||◌, ◌&&◌, none, some, if◌then◌else◌, List, ℕ, Option, Bool}
use linux_cec.Cecd.Task.Device.{
  tx, request_of, physical_address, or_empty, device_standby, run_spawned, query_audio_system,
}
use linux_cec.Cecd.Task.Poll.{configure, request_source, handle_poll_result}
use linux_cec.Cecd.Task.Commands.{
  same_info, new_task, stepped, started, configured, created, unless_foreign, is_foreign, Reached,
  start, ran, commanded, polled, Event, handle_system_message, handle_event, handle_connector,
  handle_wake, handle_standby,
}
use linux_cec.Cecd.Task.{
  lift, gets, finish, to_connector_info, tx_message, State, DrmConnector, get_logical_addresses,
  perform, get_physical_address, wake_tv, no_connector, reload_config, pure, report_power_on,
  reconfigure_connector, unknown_connector, standby, drm_connector, wake, ConnectorInfo,
  SystemMessage, Spawned, Env, ◌>>=◌, ◌>>◌,
}
use linux_cec.Cecd.Task.Frame.Polls.{
  request_source-Kept, query_audio_system-Kept, handle_poll_result-Kept,
}

module _ (P : State → Type 0) (env : Env) (frame : IsFrame P env) where
  handle_wake-Kept : (w f : Bool) → Keeps P (handle_wake env w f)
  unfolding handle_wake
  handle_wake-Kept w f =
      then-Kept P env frame
        (if f then with_logical_address env report_power_on >> request_source env else pure tt)
        (if w then with_logical_address env wake_tv else pure tt)
        (if-Keeps P f (with_logical_address env report_power_on >> request_source env) (pure tt)
          (then-Kept P env frame (with_logical_address env report_power_on) (request_source env)
            (with_logical_address-Kept P env frame report_power_on)
            (request_source-Kept P env frame))
          (λ s h. h))
        (if-Keeps P w (with_logical_address env wake_tv) (pure tt)
          (with_logical_address-Kept P env frame wake_tv) (λ s h. h))

  handle_standby-Kept : (t f : Bool) → Keeps P (handle_standby env t f)
  unfolding handle_standby device_standby
  handle_standby-Kept t f =
      >>=-Keeps P (physical_address env)
        (λ a.
          tx env (inactive_source a) tv
          >> (gets (λ s. s.active) >>= λ active.
              if f || (active && t) then tx env Message.standby tv else pure tt))
        (call-Kept P env frame get_physical_address lift tt (λ r s h. h))
        (λ a.
          then-Kept P env frame (tx env (inactive_source a) tv)
            (gets (λ s. s.active) >>= λ active.
              if f || (active && t) then tx env Message.standby tv else pure tt)
            (tx-Kept P env frame (inactive_source a) tv)
            (λ s.
              if-Keeps P (f || (s.active && t)) (tx env Message.standby tv) (pure tt)
                (tx-Kept P env frame Message.standby tv) (λ s h. h) s))

  is_foreign-Kept : (c : Option DrmConnector) (i : ConnectorInfo) → Keeps P (is_foreign env c i)
  is_foreign-Kept none i = λ s h. h
  is_foreign-Kept (some c) i =
      >>=-Keeps P (perform env (to_connector_info c) >>= finish)
        (λ own. pure (not (same_info own i)))
        (call-Kept P env frame (to_connector_info c) finish tt (λ r s h. h)) (λ own s h. h)

  handle_connector-Kept : (i : ConnectorInfo) → Keeps P (handle_connector env i)
  unfolding handle_connector
  handle_connector-Kept no_connector s h = configure-Kept P env frame s h
  handle_connector-Kept (drm_connector c i) s h =
      >>=-Keeps P (is_foreign env s.connector (drm_connector c i)) (unless_foreign env)
        (is_foreign-Kept s.connector (drm_connector c i))
        (λ other.
          if-Keeps P other (pure tt) (configure env) (λ s h. h) (configure-Kept P env frame))
        s h
  handle_connector-Kept (unknown_connector t xs) s h = h

  handle_system_message-Kept : (m : SystemMessage) → Keeps P (handle_system_message env m)
  unfolding handle_system_message
  handle_system_message-Kept (wake w f) = handle_wake-Kept w f
  handle_system_message-Kept (standby t f) = handle_standby-Kept t f
  handle_system_message-Kept reload_config =
      then-Kept P env frame (configure env) (configure_uinput env) (configure-Kept P env frame)
        frame.kept_by_configure_uinput
  handle_system_message-Kept (reconfigure_connector i) = handle_connector-Kept i

  run_spawned-Kept : (f : Spawned) → Keeps P (run_spawned env f)
  unfolding run_spawned
  run_spawned-Kept f =
      call-Kept P env frame get_logical_addresses {A = Unit {0}}
        (λ xs.
          if is_empty (or_empty xs)
          then pure tt
          else (perform env (tx_message (request_of f).0 (request_of f).1) >> pure tt))
        tt
        (λ xs.
          if-Keeps P (is_empty (or_empty xs)) (pure tt)
            (perform env (tx_message (request_of f).0 (request_of f).1) >> pure tt) (λ s h. h)
            (call-Kept P env frame (tx_message (request_of f).0 (request_of f).1) (λ r. pure tt) tt
              (λ r s h. h)))

  pub handle_event-Kept : (e : Event) → Keeps P (handle_event env e)
  unfolding handle_event
  handle_event-Kept (polled r) =
      ignore-Keeps P (handle_poll_result env r) (handle_poll_result-Kept P env frame r)
  handle_event-Kept (commanded m) =
      ignore-Keeps P (handle_system_message env m) (handle_system_message-Kept m)
  handle_event-Kept (ran f) = run_spawned-Kept f

  start-Kept : Keeps P (start env)
  unfolding start
  start-Kept =
      then-Kept P env frame (query_audio_system env) (request_source env)
        (query_audio_system-Kept P env frame) (request_source-Kept P env frame)

  pub Reached-Kept :
      ((phys_addr : ℕ) (log_addrs : List ℕ) (vendor_id : Option ℕ) (c : Option DrmConnector)
        → P (new_task phys_addr log_addrs vendor_id c))
      → {s : State} → Reached env s
      → P s
  Reached-Kept new (created p xs v c) = new p xs v c
  Reached-Kept new (configured {s} r) = frame.kept_by_configure_uinput s (Reached-Kept new r)
  Reached-Kept new (started {s} r) = start-Kept s (Reached-Kept new r)
  Reached-Kept new (stepped {s} e r) = handle_event-Kept e s (Reached-Kept new r)
