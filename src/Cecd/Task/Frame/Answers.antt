-- ===== src/Cecd/Task/Frame/Answers.antt =====
-- What the answers to messages keep (cecd/src/device.rs).
use linux_cec.Operand.Enums.Device.{incorrect_mode, unrecognized_op}
use linux_cec.Cecd.Task.Wake.{set_awaiting}
use linux_cec.Core.Error.{panicked, err, ok, Result}
use linux_cec.Cecd.Task.Logic.{Keeps, if-Keeps, >>=-Keeps}
use linux_cec.Device.Envelope.{data_opcode, valid, MessageData, Envelope}
use linux_cec.Cecd.Task.Frame.{waiting-Kept, call-Kept, announce-Kept, then-Kept, IsFrame}
use linux_cec.Core.LogicalAddress.{LogicalAddress}
use linux_cec.Cecd.Task.Device.{broadcast, physical_address, set_active}
use linux_cec.Core.PhysicalAddress.{PhysicalAddress}
use linux_cec.Prelude.{◌||◌, ◌==◌, zero, none, false, true, if◌then◌else◌, some, suc, Bool, ℕ}
use linux_cec.Cecd.Task.Answer.{
  after_suspend, same_address, handler_abort, abort_answer, is_retryable, no_answer, is_own,
  after_reply, Answer, send_tries, answer_other, answer_valid, send_answer, stand_by, answer,
  other_active, routing, handle_remote, handle_message, active_source_request, stream_path,
}
use mathlib.Core.Bool.{not}
use linux_cec.Message.Data.{
  request_active_source, system_audio_mode_status, set_system_audio_mode, routing_change,
  set_stream_path, give_device_power_status, Message, active_source,
}
use linux_cec.Cecd.Task.{
  panic, done, get_message_handler, suspend, Outcome, perform, handle_message_remote, State, cec,
  failed, finish, lift, get_physical_address, tx_message, read_config, pure, Env, Action, ◌>>=◌,
  ◌>>◌,
}

module _ (P : State → Type 0) (env : Env) (frame : IsFrame P env) where
  own_address-Kept : Keeps P (physical_address env)
  own_address-Kept = call-Kept P env frame get_physical_address lift tt (λ r s h. h)

  stream_path-Kept : (address : PhysicalAddress) → Keeps P (stream_path env address)
  unfolding stream_path
  stream_path-Kept address =
      >>=-Keeps P (physical_address env)
        (λ own.
          set_active env (is_own address own)
          >> pure (if is_own address own then some (active_source own, broadcast) else none))
        own_address-Kept
        (λ own.
          then-Kept P env frame (set_active env (is_own address own))
            (pure (if is_own address own then some (active_source own, broadcast) else none))
            (frame.kept_by_set_active (is_own address own)) (λ s h. h))

  other_active-Kept : (address : PhysicalAddress) → Keeps P (other_active env address)
  unfolding other_active
  other_active-Kept address =
      >>=-Keeps P (physical_address env) (λ own. set_active env (is_own address own) >> no_answer)
        own_address-Kept
        (λ own.
          then-Kept P env frame (set_active env (is_own address own)) no_answer
            (frame.kept_by_set_active (is_own address own)) (λ s h. h))

  awaiting-Kept : (own : Bool) → Keeps P (if own then set_awaiting false else pure tt)
  awaiting-Kept own =
      if-Keeps P own (set_awaiting false) (pure tt) (waiting-Kept P env frame false) (λ s h. h)

  routing-Kept : (address : PhysicalAddress) → Keeps P (routing env address)
  unfolding routing
  routing-Kept address =
      >>=-Keeps P (physical_address env)
        (λ own.
          (if is_own address own then set_awaiting false else pure tt)
          >> (set_active env (is_own address own) >> no_answer))
        own_address-Kept
        (λ own.
          then-Kept P env frame (if is_own address own then set_awaiting false else pure tt)
            (set_active env (is_own address own) >> no_answer) (awaiting-Kept (is_own address own))
            (then-Kept P env frame (set_active env (is_own address own)) no_answer
              (frame.kept_by_set_active (is_own address own)) (λ s h. h)))

  handle_remote-Kept : (opcode : ℕ) (e : Envelope) → Keeps P (handle_remote env opcode e)
  unfolding handle_remote
  handle_remote-Kept opcode e =
      call-Kept P env frame (handle_message_remote opcode e) {A = Answer}
        (λ reply. pure (abort_answer opcode e.initiator (handler_abort reply))) tt (λ r s h. h)

  handled-Kept :
      (opcode : ℕ) (e : Envelope) (handler : Bool)
      → Keeps P (
          if handler
          then handle_remote env opcode e
          else pure (some (Message.feature_abort opcode unrecognized_op, e.initiator)))
  handled-Kept opcode e true = handle_remote-Kept opcode e
  handled-Kept opcode e false = λ s h. h

  looked_up-Kept :
      (opcode : ℕ) (e : Envelope)
      → Keeps P (
          perform env (get_message_handler opcode) >>= λ handler.
          if handler
          then handle_remote env opcode e
          else pure (some (Message.feature_abort opcode unrecognized_op, e.initiator)))
  looked_up-Kept opcode e =
      call-Kept P env frame (get_message_handler opcode)
        (λ handler.
          if handler
          then handle_remote env opcode e
          else pure (some (Message.feature_abort opcode unrecognized_op, e.initiator)))
        tt (handled-Kept opcode e)

  answer_other-Kept : (e : Envelope) → Keeps P (answer_other env e)
  unfolding answer_other
  answer_other-Kept e =
      if-Keeps P (same_address e.destination broadcast) (pure none)
        (lift (data_opcode e.message) >>= λ opcode.
          perform env (get_message_handler opcode) >>= λ handler.
          if handler
          then handle_remote env opcode e
          else pure (some (Message.feature_abort opcode unrecognized_op, e.initiator)))
        (λ s h. h)
        (>>=-Keeps P (lift (data_opcode e.message))
          (λ opcode. perform env (get_message_handler opcode) >>= λ handler.
            if handler
            then handle_remote env opcode e
            else pure (some (Message.feature_abort opcode unrecognized_op, e.initiator)))
          (λ s h. h) (λ opcode. looked_up-Kept opcode e))

  after_suspend-Kept : (e : Envelope) (r : Outcome (Unit {0})) → Keeps P (after_suspend env e r)
  after_suspend-Kept e (done u) = λ s h. h
  after_suspend-Kept e (failed f) =
      >>=-Keeps P (lift (data_opcode e.message))
        (λ opcode. pure (some (Message.feature_abort opcode incorrect_mode, e.initiator)))
        (λ s h. h) (λ opcode s h. h)
  after_suspend-Kept e panic = λ s h. h

  stand_by-Kept : (e : Envelope) → Keeps P (stand_by env e)
  unfolding stand_by
  stand_by-Kept e =
      call-Kept P env frame read_config
        (λ config.
          if config.allow_standby
          then perform env suspend >>= after_suspend env e
          else answer_other env e)
        tt
        (λ config.
          if-Keeps P config.allow_standby (perform env suspend >>= after_suspend env e)
            (answer_other env e)
            (call-Kept P env frame suspend (after_suspend env e) tt (after_suspend-Kept e))
            (answer_other-Kept e))

  active_source_request-Kept : (e : Envelope) → Keeps P (active_source_request env e)
  unfolding active_source_request
  active_source_request-Kept e s =
      if-Keeps P (s.awaiting_wake || s.active)
        (physical_address env >>= λ own. pure (some (active_source own, broadcast)))
        (answer_other env e)
        (>>=-Keeps P (physical_address env) (λ own. pure (some (active_source own, broadcast)))
          own_address-Kept (λ own s h. h))
        (answer_other-Kept e) s

  answer_valid-Kept : (e : Envelope) (m : Message) → Keeps P (answer_valid env e m)
  unfolding answer_valid
  answer_valid-Kept e m = elim m as (λ k. Keeps P (answer_valid env e k)) [
    | give_device_power_status ↦ λ s h. h
    | Message.user_control_pressed key ↦ frame.kept_by_press e.initiator key
    | Message.user_control_released ↦ frame.kept_by_release e.initiator
    | set_stream_path a ↦ stream_path-Kept a
    | active_source a ↦ other_active-Kept a
    | Message.standby ↦ stand_by-Kept e
    | routing_change o a ↦ routing-Kept a
    | request_active_source ↦ active_source_request-Kept e
    | set_system_audio_mode b ↦ frame.kept_by_audio_mode e.initiator b
    | system_audio_mode_status b ↦ frame.kept_by_audio_mode e.initiator b
    | Message.feature_abort o r ↦ λ s h. h
    | _ ↦ answer_other-Kept e
  ]

  answer-Kept : (e : Envelope) (d : MessageData) → Keeps P (answer env e d)
  unfolding answer
  answer-Kept e (valid m) = answer_valid-Kept e m
  answer-Kept e (MessageData.invalid bytes) = answer_other-Kept e

  after_reply-Kept :
      (left : ℕ) (next : Action (Unit {0}))
      → Keeps P next
      → (r : Result (Unit {0})) → Keeps P (after_reply left next r)
  after_reply-Kept left next k (ok u) s h = h
  after_reply-Kept left next k (err e) s h =
      if-Keeps P (left == 0 || not (is_retryable e)) (finish (failed (cec e))) next (λ s h. h) k s h
  after_reply-Kept left next k panicked s h = h

  send_tries-Kept : (n : ℕ) (m : Message) (d : LogicalAddress) → Keeps P (send_tries env n m d)
  unfolding send_tries
  send_tries-Kept zero m d s h = h
  send_tries-Kept (suc n) m d s h =
      call-Kept P env frame (tx_message m d) (after_reply n (send_tries env n m d)) tt
        (after_reply-Kept n (send_tries env n m d) (send_tries-Kept n m d)) s h

  send_answer-Kept : (a : Answer) → Keeps P (send_answer env a)
  unfolding send_answer
  send_answer-Kept none s h = h
  send_answer-Kept (some (m, d)) s h = send_tries-Kept 4 m d s h

  pub handle_message-Kept : (e : Envelope) → Keeps P (handle_message env e)
  unfolding handle_message
  handle_message-Kept e =
      then-Kept P env frame _ (answer env e e.message >>= send_answer env)
        (announce-Kept P env frame _)
        (>>=-Keeps P (answer env e e.message) (send_answer env) (answer-Kept e e.message)
          send_answer-Kept)
