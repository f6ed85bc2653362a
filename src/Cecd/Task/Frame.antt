-- ===== src/Cecd/Task/Frame.antt =====
-- What every method of the task keeps (cecd/src/device.rs): a predicate on its state that the few
-- methods keep which write the parts that it is about.
pub mod Answers
pub mod Polls
pub mod Events
use linux_cec.Device.Envelope.{valid, MessageData, Envelope}
use linux_cec.Operand.UiCommand.{UiCommand}
use linux_cec.Cecd.Task.Answer.{
  is_retryable, is_own, after_reply, handle_remote, active_source_request, answer_other,
  answer_valid, stand_by, send_tries, answer, handle_message, send_answer, Answer, stream_path,
  audio_mode, release, other_active, routing, new_key_down, held_key_up, press,
}
use linux_cec.Cecd.Task.Keys.{configure_uinput, find_key, key_up, send_mapped, key_down, is_empty}
use linux_cec.Operand.Enums.Device.{PowerStatus}
use linux_cec.Core.Error.{disconnected, no_logical_address, panicked, err, ok, Result}
use linux_cec.Core.PhysicalAddress.{PhysicalAddress}
use linux_cec.Message.Data.{
  request_active_source, system_audio_mode_status, set_system_audio_mode, routing_change,
  set_stream_path, give_device_power_status, active_source, image_view_on, report_power_status,
  Message,
}
use linux_cec.Cecd.Task.Wake.{
  is_disconnected, after_configure, after_source, set_awaiting, disconnect, reconfigure, ignore,
  wake_task, run_all, drain, with_logical_address, wake_tries, run_deferred,
}
use linux_cec.Cecd.Task.Poll.{announce, configure, log_addr_retries}
use linux_cec.Core.LogicalAddress.{tv, LogicalAddress, logical_address_discriminant}
use linux_cec.Prelude.{
  ◌||◌, ◌==◌, if◌then◌else◌, ◌++◌, true, none, some, false, zero, ◌∷◌, suc, List, ℕ, [], Option,
  ◌≤◌, ◌≡◌, arith, Bool,
}
use linux_cec.Cecd.Task.Device.{
  physical_address, broadcast, or_empty, own_source, device_wake, tx, pending_activate,
  set_active_source, announce_active, set_active,
}
use linux_cec.Cecd.Task.Logic.{
  modify-Keeps, gets-Keeps, if-Keeps, finish-Keeps, ignore-Keeps, pure-Keeps, perform-Keeps,
  >>=-Keeps, Keeps,
}
use linux_cec.Cecd.Task.{
  drop_uinput, cec, read_config, user_control_pressed, finish, emit, send_key, Signal, failed,
  panic, pure, configure_dev, done, modify, get_physical_address, DrmConnector, request_active,
  gets, get_logical_addresses, sleep, Outcome, spawn, wake_tv, outcome, activate, report_power_on,
  lift, tx_message, Deferred, Reply, perform, Call, State, Env, Action, ◌>>=◌,
}
use linux_cec.Cecd.Task.{◌>>◌}
use mathlib.Core.Bool.{not}
use linux_cec.Operand.UiCommand.{ui_command as ui_command_operand}

-- A call that no event of the input device is.
abbrev pub IsQuiet : Call → Type 0
IsQuiet (send_key key pressed) = ⊥
IsQuiet drop_uinput = ⊥
IsQuiet other = Unit

-- A predicate that reads the keys, the active flag, the audio system, and the bound of the tries.
pub record IsFrame (P : State → Type 0) (env : Env) : Type 0 where
  pub kept_by_call :
      (c : Call) (s : State) → IsQuiet c → P s → P (record s { history = c ∷ s.history })
  pub kept_by_write :
      (s : State) (tries : ℕ) (waits : Bool) (c : Option DrmConnector) (waiting : List Deferred)
      (phys_addr : ℕ) (log_addrs : List ℕ) (vendor_id : Option ℕ)
      → (s.log_addr_try ≤ log_addr_retries → tries ≤ log_addr_retries)
      → P s
      → P (record s {
        log_addr_try = tries;
        awaiting_wake = waits;
        connector = c;
        queue = waiting;
        cached_phys_addr = phys_addr;
        cached_log_addrs = log_addrs;
        cached_vendor_id = vendor_id;
      })
  pub kept_by_set_active : (b : Bool) → Keeps P (set_active env b)
  pub kept_by_audio_mode :
      (initiator : LogicalAddress) (status : Bool) → Keeps P (audio_mode env initiator status)
  pub kept_by_press :
      (initiator : LogicalAddress) (key : UiCommand) → Keeps P (press env initiator key)
  pub kept_by_release : (initiator : LogicalAddress) → Keeps P (release env initiator)
  pub kept_by_configure_uinput : Keeps P (configure_uinput env)

module _ (P : State → Type 0) (env : Env) (frame : IsFrame P env) where
  pub perform-Kept : (c : Call) → IsQuiet c → Keeps P (perform env c)
  perform-Kept c q = perform-Keeps P env c (λ s. frame.kept_by_call c s q)

  pub waiting-Kept : (waits : Bool) → Keeps P (set_awaiting waits)
  waiting-Kept waits s h =
      frame.kept_by_write s s.log_addr_try waits s.connector s.queue s.cached_phys_addr
        s.cached_log_addrs s.cached_vendor_id (λ le. le) h

  pub connector-Kept :
      (c : Option DrmConnector) → Keeps P (modify (λ s. record s { connector = c }))
  connector-Kept c s h =
      frame.kept_by_write s s.log_addr_try s.awaiting_wake c s.queue s.cached_phys_addr
        s.cached_log_addrs s.cached_vendor_id (λ le. le) h

  queued : (s : State) (waiting : List Deferred) → P s → P (record s { queue = waiting })
  queued s waiting h =
      frame.kept_by_write s s.log_addr_try s.awaiting_wake s.connector waiting s.cached_phys_addr
        s.cached_log_addrs s.cached_vendor_id (λ le. le) h

  pub call-Kept :
      (c : Call) {A : Type 0} (f : Reply c → Action A)
      → IsQuiet c
      → ((r : Reply c) → Keeps P (f r))
      → Keeps P (perform env c >>= f)
  call-Kept c f q h = >>=-Keeps P (perform env c) f (perform-Kept c q) h

  pub then-Kept :
      {A B : Type 0} (m : Action A) (n : Action B) → Keeps P m → Keeps P n → Keeps P (m >> n)
  then-Kept m n h k = >>=-Keeps P m (λ _. n) h (λ _. k)

  pub tx-Kept : (m : Message) (d : LogicalAddress) → Keeps P (tx env m d)
  tx-Kept m d = call-Kept (tx_message m d) lift tt (λ r. finish-Keeps P (outcome r))

  pub own_source-Kept : (r : Result PhysicalAddress) → Keeps P (own_source env r)
  own_source-Kept (ok a) = perform-Kept (tx_message (active_source a) broadcast) tt
  own_source-Kept (err e) = λ s h. h
  own_source-Kept panicked = λ s h. h

  pub set_active_source-Kept : (a : Option PhysicalAddress) → Keeps P (set_active_source env a)
  unfolding set_active_source
  set_active_source-Kept (some a) = own_source-Kept (ok a)
  set_active_source-Kept none = call-Kept get_physical_address (own_source env) tt own_source-Kept

  pub configure-Kept : Keeps P (configure env)
  unfolding configure
  configure-Kept s h =
      >>=-Keeps P (perform env (configure_dev s.connector) >>= finish)
        (λ new. modify (λ s. record s { connector = new }))
        (call-Kept (configure_dev s.connector) finish tt (λ r s h. h)) connector-Kept s h

  module _ (next : Action (Unit {0})) (kept : Keeps P next) where
    disconnect-Kept : Keeps P (disconnect env)
    disconnect-Kept = waiting-Kept false

    after_configure-Kept :
        (r : Outcome (Option DrmConnector)) → Keeps P (after_configure env next r)
    after_configure-Kept (done c) =
        >>=-Keeps P (modify (λ s. record s { connector = c })) (λ _. next) (connector-Kept c)
          (λ _. kept)
    after_configure-Kept (failed e) =
        if-Keeps P (is_disconnected e) (disconnect env) next disconnect-Kept kept
    after_configure-Kept panic = λ s h. h

    reconfigure-Kept : Keeps P (reconfigure env next)
    reconfigure-Kept s h =
        call-Kept (configure_dev s.connector) (after_configure env next) tt after_configure-Kept s h

    sleep-Kept : Keeps P (perform env sleep >> next)
    sleep-Kept = call-Kept sleep (λ _. next) tt (λ _. kept)

    after_source-Kept : (r : Result (Unit {0})) → Keeps P (after_source env next r)
    after_source-Kept (ok u) s h =
        if-Keeps P s.awaiting_wake (perform env sleep >> next) (pure tt) sleep-Kept (λ s h. h) s h
    after_source-Kept (err e) s h =
        (elim e as (λ k. Keeps P (after_source env next (err k))) [
          | no_logical_address ↦ reconfigure-Kept
          | disconnected ↦ disconnect-Kept
          | _ ↦ sleep-Kept
        ])
          s h
    after_source-Kept panicked s h = h

  pub wake_tries-Kept : (n : ℕ) → Keeps P (wake_tries env n)
  unfolding wake_tries
  wake_tries-Kept zero = λ s h. h
  wake_tries-Kept (suc n) =
      >>=-Keeps P (set_active_source env none) (after_source env (wake_tries env n))
        (set_active_source-Kept none) (after_source-Kept (wake_tries env n) (wake_tries-Kept n))

  pub device_wake-Kept : Keeps P (device_wake env false false)
  unfolding device_wake
  device_wake-Kept =
      >>=-Keeps P (tx env image_view_on tv) (λ _. pure tt) (tx-Kept image_view_on tv) (λ _ s h. h)

  pub wake_task-Kept : Keeps P (wake_task env)
  unfolding wake_task
  wake_task-Kept =
      >>=-Keeps P (device_wake env false false) (λ _. set_awaiting true >> wake_tries env 2)
        device_wake-Kept
        (λ _.
          >>=-Keeps P (set_awaiting true) (λ _. wake_tries env 2) (waiting-Kept true)
            (λ _. wake_tries-Kept 2))

  pub pending_activate-Kept : Keeps P (pending_activate env)
  unfolding pending_activate
  pending_activate-Kept =
      call-Kept (spawn request_active) (λ _. set_active env true) tt
        (λ _. frame.kept_by_set_active true)

  pub run_deferred-Kept : (d : Deferred) → Keeps P (run_deferred env d)
  unfolding run_deferred
  run_deferred-Kept report_power_on = tx-Kept (report_power_status PowerStatus.on) broadcast
  run_deferred-Kept activate = pending_activate-Kept
  run_deferred-Kept wake_tv = wake_task-Kept

  pub run_all-Kept : (queue : List Deferred) → Keeps P (run_all env queue)
  unfolding run_all
  run_all-Kept [] = λ s h. h
  run_all-Kept (d ∷ queue) =
      >>=-Keeps P (ignore (run_deferred env d)) (λ _. run_all env queue)
        (ignore-Keeps P (run_deferred env d) (run_deferred-Kept d)) (λ _. run_all-Kept queue)

  pub drain-Kept : Keeps P (drain env)
  unfolding drain
  drain-Kept s h = run_all-Kept s.queue (record s { queue = [] }) (queued s [] h)

  pub with_logical_address-Kept : (d : Deferred) → Keeps P (with_logical_address env d)
  unfolding with_logical_address
  with_logical_address-Kept d =
      call-Kept get_logical_addresses {A = Unit {0}}
        (λ addresses.
          if is_empty (or_empty addresses)
          then modify (λ s. record s { queue = s.queue ++ (d ∷ []) })
          else ignore (run_deferred env d))
        tt
        (λ addresses.
          if-Keeps P (is_empty (or_empty addresses))
            (modify (λ s. record s { queue = s.queue ++ (d ∷ []) })) (ignore (run_deferred env d))
            (λ s h. queued s (s.queue ++ (d ∷ [])) h)
            (ignore-Keeps P (run_deferred env d) (run_deferred-Kept d)))

  pub announce-Kept : (signal : Signal) → Keeps P (announce env signal)
  announce-Kept signal = call-Kept (emit signal) finish tt (λ r s h. h)
