-- ===== src/Cecd/Task/Wake.antt =====
-- `DeviceTask::wake`, and what waits for a logical address (cecd/src/device.rs).
use linux_cec.Operand.Enums.Device.{PowerStatus}
use linux_cec.Cecd.Task.Keys.{is_empty}
use linux_cec.Message.Data.{report_power_status}
use linux_cec.Core.Error.{panicked, no_logical_address, err, disconnected, ok, Result}
use linux_cec.Cecd.Task.Device.{
  broadcast, or_empty, tx, pending_activate, device_wake, set_active_source,
}
use linux_cec.Prelude.{
  zero, ◌++◌, none, if◌then◌else◌, ◌∷◌, suc, true, Option, ℕ, [], false, List, Bool,
}
use linux_cec.Cecd.Task.{
  wake_tv, activate, report_power_on, sleep, get_logical_addresses, configure_dev, DrmConnector,
  panic, finish, failed, pure, perform, done, Outcome, Deferred, cec, modify, gets, Env, Failure,
  Action, ◌>>=◌, ◌>>◌,
}

abbrev pub set_awaiting : Bool → Action (Unit {0})
set_awaiting waits = modify (λ s. record s { awaiting_wake = waits })

-- `matches!(err.downcast::<Error>(), Ok(Error::Disconnected))`
abbrev pub is_disconnected : Failure → Bool
is_disconnected (cec disconnected) = true
is_disconnected other = false

-- A result that is dropped, or only written to the log.
abbrev pub ignore : Action (Unit {0}) → Action (Unit {0})
ignore m s =
    let (r, s') = m s in
    elim r [ done u ↦ (done tt, s') | failed e ↦ (done tt, s') | panic ↦ (panic, s') ]

module _ (env : Env) where
  abbrev pub disconnect : Action (Unit {0})
  disconnect = set_awaiting false >> finish (failed (cec disconnected))

  abbrev pub after_configure : Action (Unit {0}) → Outcome (Option DrmConnector) → Action (Unit {0})
  after_configure next (done c) = modify (λ s. record s { connector = c }) >> next
  after_configure next (failed e) = if is_disconnected e then disconnect else next
  after_configure next panic = finish panic

  abbrev pub reconfigure : Action (Unit {0}) → Action (Unit {0})
  reconfigure next = do
    c ← gets (λ s. s.connector)
    r ← perform env (configure_dev c)
    after_configure next r

  -- What a round of the loop does with the result of `set_active_source`; `next` is the rest of
  -- the loop.
  abbrev pub after_source : Action (Unit {0}) → Result (Unit {0}) → Action (Unit {0})
  after_source next (ok u) = do
    waits ← gets (λ s. s.awaiting_wake)
    if waits then perform env sleep >> next else pure tt
  after_source next (err no_logical_address) = reconfigure next
  after_source next (err disconnected) = disconnect
  after_source next (err other) = perform env sleep >> next
  after_source next panicked = finish panic

  unfoldable pub wake_tries : ℕ → Action (Unit {0})
  unfolding set_active_source
  wake_tries zero = pure tt
  wake_tries (suc tries) =
      let next = wake_tries tries in set_active_source env none >>= after_source next

  unfoldable pub wake_task : Action (Unit {0})
  unfolding device_wake wake_tries
  wake_task = device_wake env false false >> (set_awaiting true >> wake_tries 2)

  unfoldable pub run_deferred : Deferred → Action (Unit {0})
  unfolding pending_activate wake_task
  run_deferred report_power_on = tx env (report_power_status PowerStatus.on) broadcast
  run_deferred activate = pending_activate env
  run_deferred wake_tv = wake_task

  unfoldable pub with_logical_address : Deferred → Action (Unit {0})
  unfolding run_deferred
  with_logical_address d = do
    addresses ← perform env get_logical_addresses
    if is_empty (or_empty addresses)
        then modify (λ s. record s { queue = s.queue ++ (d ∷ []) })
        else ignore (run_deferred d)

  -- The queue is emptied before its callbacks run.
  unfoldable pub run_all : List Deferred → Action (Unit {0})
  unfolding run_deferred
  run_all [] = pure tt
  run_all (d ∷ queue) = ignore (run_deferred d) >> run_all queue

  unfoldable pub drain : Action (Unit {0})
  unfolding run_all
  drain = do queue ← gets (λ s. s.queue); modify (λ s. record s { queue = [] }); run_all queue
