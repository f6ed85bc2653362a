-- ===== src/Cecd/Task/Commands.antt =====
-- What the task does with a message of the system: `handle_system_message` (cecd/src/device.rs).
use linux_cec.Core.LogicalAddress.{tv}
use linux_cec.Message.Data.{inactive_source}
use linux_cec.Cecd.Task.Keys.{configure_uinput}
use linux_cec.Prelude.{
  [], List, ℕ, none, ◌&&◌, ◌||◌, ◌==◌, true, some, false, if◌then◌else◌, Bool, Option,
}
use linux_cec.Cecd.Task.Wake.{ignore, with_logical_address}
use linux_cec.Cecd.Task.Device.{
  tx, physical_address, device_standby, run_spawned, query_audio_system,
}
use linux_cec.Cecd.Task.Poll.{log_addr_retries, configure, request_source, handle_poll_result}
use linux_cec.Device.Adapter.{PollResult}
use mathlib.Core.Bool.{not}
use linux_cec.Cecd.Task.{
  State, finish, to_connector_info, reload_config, perform, wake_tv, no_connector,
  reconfigure_connector, standby, unknown_connector, report_power_on, wake, gets, pure,
  drm_connector, DrmConnector, Spawned, ConnectorInfo, SystemMessage, Env, Action, ◌>>=◌, ◌>>◌,
}
use linux_cec.Cecd.Edid.{bytes_eq}

unfoldable pub same_info : ConnectorInfo → ConnectorInfo → Bool
unfolding bytes_eq
same_info no_connector no_connector = true
same_info (drm_connector c i) (drm_connector d j) = c == d && i == j
same_info (unknown_connector t xs) (unknown_connector u ys) = t == u && bytes_eq xs ys
same_info other another = false

module _ (env : Env) where
  unfoldable pub handle_wake : Bool → Bool → Action (Unit {0})
  unfolding with_logical_address request_source
  handle_wake wakes_tv from_standby = do
    if from_standby then with_logical_address env report_power_on >> request_source env else pure tt
    if wakes_tv then with_logical_address env wake_tv else pure tt

  unfoldable pub handle_standby : Bool → Bool → Action (Unit {0})
  unfolding device_standby
  handle_standby standby_tv force = do
    address ← physical_address env
    tx env (inactive_source address) tv
    active ← gets (λ s. s.active)
    if force || (active && standby_tv) then device_standby env tv else pure tt

  -- Whether a connector that is to be configured is not the task's.
  abbrev pub is_foreign : Option DrmConnector → ConnectorInfo → Action Bool
  is_foreign none info = pure false
  is_foreign (some connector) info =
      (perform env (to_connector_info connector) >>= finish) >>= λ own.
      pure (not (same_info own info))

  abbrev pub unless_foreign : Bool → Action (Unit {0})
  unless_foreign other = if other then pure tt else configure env

  unfoldable pub handle_connector : ConnectorInfo → Action (Unit {0})
  unfolding configure same_info
  handle_connector no_connector = configure env
  handle_connector (drm_connector card_no connector_id) = do
    connector ← gets (λ s. s.connector)
    other ← is_foreign connector (drm_connector card_no connector_id)
    unless_foreign other
  handle_connector (unknown_connector ty info) = pure tt

  unfoldable pub handle_system_message : SystemMessage → Action (Unit {0})
  unfolding handle_wake handle_standby configure configure_uinput handle_connector
  handle_system_message (wake wakes_tv from_standby) = handle_wake wakes_tv from_standby
  handle_system_message (standby standby_tv force) = handle_standby standby_tv force
  handle_system_message reload_config = configure env >> configure_uinput env
  handle_system_message (reconfigure_connector info) = handle_connector info

-- A round of the loop of `run`: an error is only written to the log. The loop starts with a query
-- of the audio system and, where it is configured, of the active source.
pub data Event : Type 0 where
  polled : PollResult → Event
  commanded : SystemMessage → Event
  ran : Spawned → Event

unfoldable pub handle_event : Env → Event → Action (Unit {0})
unfolding handle_poll_result handle_system_message run_spawned
handle_event env (polled result) = ignore (handle_poll_result env result)
handle_event env (commanded message) = ignore (handle_system_message env message)
handle_event env (ran future) = run_spawned env future

unfoldable pub start : Env → Action (Unit {0})
unfolding query_audio_system request_source
start env = query_audio_system env >> request_source env

-- The task as `new` leaves it, with what the interface has cached and the connector that the first
-- configuration returned.
abbrev pub new_task : ℕ → List ℕ → Option ℕ → Option DrmConnector → State
new_task phys_addr log_addrs vendor_id connector = record {
  active_key = none;
  log_addr_try = log_addr_retries;
  awaiting_wake = false;
  active = false;
  connector = connector;
  audio_log_addr = tv;
  queue = [];
  cached_phys_addr = phys_addr;
  cached_log_addrs = log_addrs;
  cached_vendor_id = vendor_id;
  cached_active = false;
  cached_audio_log_addr = 0;
  uinput = none;
  history = [];
}

-- The states that the task runs through: it is set up, asks for what it needs at the start, and
-- then the environment chooses the events.
pub data Reached (env : Env) : State → Type 0 where
  created :
      (phys_addr : ℕ) (log_addrs : List ℕ) (vendor_id : Option ℕ) (connector : Option DrmConnector)
      → Reached env (new_task phys_addr log_addrs vendor_id connector)
  configured : {s : State} → Reached env s → Reached env (configure_uinput env s).1
  started : {s : State} → Reached env s → Reached env (start env s).1
  stepped : {s : State} (e : Event) → Reached env s → Reached env (handle_event env e s).1
