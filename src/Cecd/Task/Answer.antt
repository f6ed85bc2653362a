-- ===== src/Cecd/Task/Answer.antt =====
-- How the task answers a message: the reply of `handle_message` (cecd/src/device.rs), the handlers
-- of other processes (cecd/src/message_handler.rs), and the loop that sends the reply.
use linux_cec.Cecd.Task.Wake.{set_awaiting}
use linux_cec.Operand.Enums.Device.{
  unrecognized_op, abort_reason, incorrect_mode, PowerStatus, undetermined, AbortReason,
}
use linux_cec.Cecd.Task.Keys.{key_down, key_up}
use linux_cec.Core.PhysicalAddress.{PhysicalAddress}
use linux_cec.Device.Envelope.{data_to_bytes, valid, MessageData, Envelope, data_opcode}
use linux_cec.Prelude.{
  zero, false, true, ◌||◌, none, ◌==◌, if◌then◌else◌, some, suc, List, ℕ, Bool, Option,
}
use linux_cec.Operand.Primitive.{try_from_primitive}
use linux_cec.Core.Error.{aborted, unknown_error, panicked, err, tx_error, ok, Error, Result}
use linux_cec.Core.LogicalAddress.{tv, logical_address_discriminant, LogicalAddress}
use mathlib.Core.Bool.{not}
use linux_cec.Operand.UiCommand.{UiCommand, ui_command as ui_command_operand}
use linux_cec.Message.Data.{
  request_active_source, give_device_power_status, system_audio_mode_status, set_system_audio_mode,
  routing_change, set_stream_path, report_power_status, Message, active_source,
}
use linux_cec.Cecd.Task.Device.{physical_address, set_active, broadcast}
use linux_cec.Cecd.Task.{
  raised, timed_out, panic, audio_logical_address_changed, cec, get_message_handler, modify, failed,
  received_message, suspend, lift, replied, finish, handle_message_remote, read_config, tx_message,
  done, emit, gets, perform, Outcome, pure, HandlerReply, Env, Action, ◌>>=◌, ◌>>◌,
  user_control_pressed, user_control_released,
}

abbrev pub Answer : Type 0
Answer = Option (Message × LogicalAddress)

abbrev pub no_answer : Action Answer
no_answer = pure none

abbrev pub same_address : LogicalAddress → LogicalAddress → Bool
same_address a b = logical_address_discriminant a == logical_address_discriminant b

-- `abort_reason.try_into().unwrap_or(AbortReason::Undetermined)`
abbrev pub or_undetermined : Result AbortReason → AbortReason
or_undetermined (ok reason) = reason
or_undetermined (err e) = undetermined
or_undetermined panicked = undetermined

-- `MessageHandler::handle_reply`, and the timeout of `handle`.
unfoldable pub handler_abort : HandlerReply → Option AbortReason
unfolding try_from_primitive
handler_abort timed_out = some undetermined
handler_abort (replied true reason) = none
handler_abort (replied false reason) =
    some (or_undetermined (try_from_primitive abort_reason reason))
handler_abort raised = some undetermined

abbrev pub abort_answer : ℕ → LogicalAddress → Option AbortReason → Answer
abort_answer opcode initiator none = none
abort_answer opcode initiator (some reason) = some (Message.feature_abort opcode reason, initiator)

abbrev pub is_own : PhysicalAddress → PhysicalAddress → Bool
is_own address own = address.value == own.value

-- An error after which the reply is sent again.
abbrev pub is_retryable : Error → Bool
is_retryable (tx_error unknown_error) = true
is_retryable (tx_error aborted) = true
is_retryable other = false

abbrev pub after_reply : ℕ → Action (Unit {0}) → Result (Unit {0}) → Action (Unit {0})
after_reply left next (ok u) = pure tt
after_reply left next (err e) =
    if left == 0 || not (is_retryable e) then finish (failed (cec e)) else next
after_reply left next panicked = finish panic

module _ (env : Env) where
  -- `MessageHandler::handle`
  unfoldable pub handle_remote : ℕ → Envelope → Action Answer
  unfolding handler_abort
  handle_remote opcode envelope = do
    reply ← perform env (handle_message_remote opcode envelope)
    pure (abort_answer opcode envelope.initiator (handler_abort reply))

  -- The last two cases of the match.
  unfoldable pub answer_other : Envelope → Action Answer
  unfolding handle_remote data_opcode
  answer_other envelope = if same_address envelope.destination broadcast then pure none else (do
    opcode ← lift (data_opcode envelope.message)
    handler ← perform env (get_message_handler opcode)
    if handler
        then handle_remote opcode envelope
        else pure (some (Message.feature_abort opcode unrecognized_op, envelope.initiator)))

  abbrev pub held_key_up : Option (List (UiCommand × ℕ)) → Option UiCommand → Action (Unit {0})
  held_key_up none key = pure tt
  held_key_up (some mappings) none = pure tt
  held_key_up (some mappings) (some key) = key_up env mappings key

  abbrev pub new_key_down : Option (List (UiCommand × ℕ)) → UiCommand → Action (Unit {0})
  new_key_down none key = pure tt
  new_key_down (some mappings) key = key_down env mappings key

  unfoldable pub press : LogicalAddress → UiCommand → Action Answer
  unfolding key_up key_down
  press initiator ui_command = do
    perform env (
          emit (
            user_control_pressed (ui_command_operand.to_bytes ui_command)
              (logical_address_discriminant initiator)))
        >>= finish
    uinput ← gets (λ s. s.uinput)
    old ← gets (λ s. s.active_key)
    held_key_up uinput old
    new_key_down uinput ui_command
    modify (λ s. record s { active_key = some ui_command })
    pure none

  unfoldable pub release : LogicalAddress → Action Answer
  unfolding key_up
  release initiator = do
    perform env (emit (user_control_released (logical_address_discriminant initiator))) >>= finish
    uinput ← gets (λ s. s.uinput)
    old ← gets (λ s. s.active_key)
    held_key_up uinput old
    modify (λ s. record s { active_key = none })
    pure none

  unfoldable pub stream_path : PhysicalAddress → Action Answer
  unfolding set_active
  stream_path address = do
    own ← physical_address env
    set_active env (is_own address own)
    pure (if is_own address own then some (active_source own, broadcast) else none)

  unfoldable pub other_active : PhysicalAddress → Action Answer
  unfolding set_active
  other_active address = do
    own ← physical_address env
    set_active env (is_own address own)
    pure none

  unfoldable pub routing : PhysicalAddress → Action Answer
  unfolding set_active
  routing new_address = do
    own ← physical_address env
    if is_own new_address own then set_awaiting false else pure tt
    set_active env (is_own new_address own)
    pure none

  abbrev pub after_suspend : Envelope → Outcome (Unit {0}) → Action Answer
  after_suspend envelope (done u) = pure none
  after_suspend envelope (failed e) = do
    opcode ← lift (data_opcode envelope.message)
    pure (some (Message.feature_abort opcode incorrect_mode, envelope.initiator))
  after_suspend envelope panic = finish panic

  unfoldable pub stand_by : Envelope → Action Answer
  unfolding answer_other data_opcode
  stand_by envelope = do
    config ← perform env read_config
    if config.allow_standby
        then perform env suspend >>= after_suspend envelope
        else answer_other envelope

  unfoldable pub active_source_request : Envelope → Action Answer
  unfolding answer_other
  active_source_request envelope = do
    waits ← gets (λ s. s.awaiting_wake)
    active ← gets (λ s. s.active)
    if waits || active
        then (physical_address env >>= λ own. pure (some (active_source own, broadcast)))
        else answer_other envelope

  unfoldable pub audio_mode : LogicalAddress → Bool → Action Answer
  audio_mode initiator status = do
    let address = if status then initiator else tv
    modify (λ s. record s { audio_log_addr = address })
    cached ← gets (λ s. s.cached_audio_log_addr)
    if cached == logical_address_discriminant address
        then pure tt
        else (modify
              (λ s. record s { cached_audio_log_addr = logical_address_discriminant address })
            >> (perform env
                  (emit (audio_logical_address_changed (logical_address_discriminant address)))
                >>= finish))
    pure none

  -- The match on the message.
  unfoldable pub answer_valid : Envelope → Message → Action Answer
  unfolding press release stream_path other_active stand_by routing active_source_request audio_mode
      answer_other
  answer_valid envelope give_device_power_status =
      pure (some (report_power_status PowerStatus.on, envelope.initiator))
  answer_valid envelope (Message.user_control_pressed ui_command) =
      press envelope.initiator ui_command
  answer_valid envelope Message.user_control_released = release envelope.initiator
  answer_valid envelope (set_stream_path address) = stream_path address
  answer_valid envelope (active_source address) = other_active address
  answer_valid envelope Message.standby = stand_by envelope
  answer_valid envelope (routing_change original new_address) = routing new_address
  answer_valid envelope request_active_source = active_source_request envelope
  answer_valid envelope (set_system_audio_mode status) = audio_mode envelope.initiator status
  answer_valid envelope (system_audio_mode_status status) = audio_mode envelope.initiator status
  answer_valid envelope (Message.feature_abort opcode reason) = pure none
  answer_valid envelope other = answer_other envelope

  unfoldable pub answer : Envelope → MessageData → Action Answer
  unfolding answer_valid answer_other
  answer envelope (valid message) = answer_valid envelope message
  answer envelope (MessageData.invalid bytes) = answer_other envelope

  -- `for i in 0..REPLY_RETRIES`, by the rounds left.
  unfoldable pub send_tries : ℕ → Message → LogicalAddress → Action (Unit {0})
  send_tries zero reply address = pure tt
  send_tries (suc left) reply address =
      let next = send_tries left reply address in
      perform env (tx_message reply address) >>= after_reply left next

  unfoldable pub send_answer : Answer → Action (Unit {0})
  unfolding send_tries
  send_answer none = pure tt
  send_answer (some (reply, address)) = send_tries 4 reply address

  unfoldable pub handle_message : Envelope → Action (Unit {0})
  unfolding answer send_answer
  handle_message envelope = do
    perform env (
          emit (
            received_message (logical_address_discriminant envelope.initiator)
              (logical_address_discriminant envelope.destination) envelope.timestamp
              (data_to_bytes envelope.message)))
        >>= finish
    reply ← answer envelope envelope.message
    send_answer reply
