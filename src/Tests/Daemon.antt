-- ===== src/Tests/Daemon.antt =====
-- The task of a device (cecd/src/device.rs) in two environments: one in which all calls succeed but
-- that of suspending, and one in which no message is sent.
use linux_cec.Cecd.Task.Released.{Reached-IsReleasable}
use linux_cec.Cecd.Task.Sending.{send_answer-EndsAt, EndsAt}
use linux_cec.Cecd.Task.Waking.{wake_fails, wake_repeats}
use linux_cec.Cecd.Task.Consistent.{Reached-IsConsistent}
use linux_cec.Device.Adapter.{message, state_change}
use linux_cec.Cecd.Task.Held.{is_key, press-held, mapped, release-held, held, IsReleasable}
use linux_cec.Cecd.Task.Tracking.{active_follows}
use linux_cec.Core.LogicalAddress.{unregistered_or_broadcast, playback_device1, tv}
use linux_cec.Device.Envelope.{valid, Envelope}
use linux_cec.Operand.UiCommand.Simple.{ui_select}
use linux_cec.Message.Data.{active_source, image_view_on, routing_change}
use linux_cec.Cecd.Task.Replies.{broadcast_abort, IsAbort}
use linux_cec.Cecd.Task.Commands.{configured, created, stepped, polled, new_task, handle_event}
use linux_cec.Cecd.Task.Consistent.{IsConsistent}
use linux_cec.Core.PhysicalAddress.{PhysicalAddress}
use linux_cec.Cecd.Task.Answer.{send_answer, send_tries, release, answer_valid, press}
use linux_cec.Prelude.{arith, false, ◌⊎◌, none, refl, ◌∷◌, [], some, true, ◌≡◌, ℕ}
use linux_cec.Cecd.Task.Wake.{wake_task}
use linux_cec.Cecd.Task.{
  drop_uinput, suspend, read_config, get_vendor_id, get_logical_addresses, spawn, open_uinput,
  timed_out, handle_message_remote, get_message_handler, emit, no_connector, to_connector_info,
  configure_dev, foreign, get_physical_address, sleep, failed, cec, done, send_key, Call, Config,
  Env, State, tx_message, ◌>>=◌,
}
use linux_cec.Core.Error.{disconnected, ok, err, Error, unknown_error, tx_error}
use linux_cec.Operand.UiCommand.{simple, UiCommand}
use linux_cec.Message.Data.{Message, routing_change, active_source, image_view_on}
use linux_cec.Cecd.Task.Keys.{configure_uinput, find_key}

abbrev own_address : PhysicalAddress
own_address = record { value = 0x1000 }

abbrev tv_address : PhysicalAddress
tv_address = record { value = 0 }

abbrev select : UiCommand
select = simple ui_select

abbrev config : Config
config = record {
  allow_standby = true;
  request_active_source = true;
  uinput = true;
  mappings = (select, 28) ∷ [];
}

abbrev quiet : Env
quiet get_physical_address h = ok own_address
quiet get_logical_addresses h = ok (playback_device1 ∷ [])
quiet get_vendor_id h = ok none
quiet read_config h = config
quiet suspend h = failed (foreign 1)
quiet sleep h = tt
quiet (tx_message m d) h = ok tt
quiet (configure_dev c) h = done none
quiet (to_connector_info c) h = done no_connector
quiet (emit signal) h = done tt
quiet (get_message_handler opcode) h = false
quiet (handle_message_remote opcode e) h = timed_out
quiet (send_key key pressed) h = done tt
quiet (open_uinput mappings) h = done tt
quiet drop_uinput h = tt
quiet (spawn future) h = tt

abbrev lossy : Env
lossy (tx_message m d) h = err (tx_error unknown_error)
lossy get_physical_address h = ok own_address
lossy get_logical_addresses h = ok []
lossy get_vendor_id h = ok none
lossy read_config h = config
lossy suspend h = done tt
lossy sleep h = tt
lossy (configure_dev c) h = done none
lossy (to_connector_info c) h = done no_connector
lossy (emit signal) h = done tt
lossy (get_message_handler opcode) h = false
lossy (handle_message_remote opcode e) h = timed_out
lossy (send_key key pressed) h = done tt
lossy (open_uinput mappings) h = done tt
lossy drop_uinput h = tt
lossy (spawn future) h = tt

abbrev task : State
task = record (new_task 0x1000 [] none none) { uinput = some config.mappings }

abbrev holding : State
holding = record task { active_key = some select; history = send_key 28 true ∷ [] }

abbrev envelope_of : Message → Envelope
envelope_of m = record {
  message = valid m;
  initiator = tv;
  destination = unregistered_or_broadcast;
  timestamp = 0;
  sequence = 1;
}

Reached-IsConsistent_example :
    IsConsistent (handle_event quiet (polled state_change) (new_task 0xffff [] none none)).1
Reached-IsConsistent_example =
    Reached-IsConsistent quiet (stepped (polled state_change) (created 0xffff [] none none))

Reached-IsReleasable_example :
    IsReleasable quiet
      (handle_event quiet
        (polled (message (envelope_of (Message.user_control_pressed select))))
        (configure_uinput quiet (new_task 0xffff [] none none)).1).1
Reached-IsReleasable_example = Reached-IsReleasable quiet (
    stepped (polled (message (envelope_of (Message.user_control_pressed select))))
      (configured (created 0xffff [] none none)))

holding-IsReleasable : IsReleasable quiet holding
unfolding find_key
holding-IsReleasable k h = ground arith

press-held_example :
    let (r, t) = press quiet tv select holding in
    IsReleasable quiet t
    × (r ≡ done none → (k : ℕ) → held quiet t.history k ≡ is_key (mapped t.uinput (some select)) k)
press-held_example = press-held quiet tv select holding holding-IsReleasable

release-held_example :
    let (r, t) = release quiet tv holding in
    IsReleasable quiet t × (r ≡ done none → (k : ℕ) → held quiet t.history k ≡ false)
release-held_example = release-held quiet tv holding holding-IsReleasable

active_follows_example :
    (answer_valid quiet
      (envelope_of (routing_change tv_address own_address))
      (routing_change tv_address own_address)
      task).1.active
    ≡ true
active_follows_example =
    active_follows quiet (envelope_of (routing_change tv_address own_address))
      (routing_change tv_address own_address) own_address own_address task refl refl

refused : IsAbort (answer_valid quiet (envelope_of Message.standby) Message.standby task).0
unfolding answer_valid linux_cec.Cecd.Task.Answer.stand_by linux_cec.Device.Envelope.data_opcode
refused = tt

broadcast_abort_example : Message.standby ≡ Message.standby
broadcast_abort_example =
    broadcast_abort quiet (envelope_of Message.standby) Message.standby task refl refused

send_answer-EndsAt_example :
    (k : ℕ) × EndsAt lossy Message.standby tv 3 k task
      (send_answer lossy (some (Message.standby, tv)) task)
send_answer-EndsAt_example = send_answer-EndsAt lossy Message.standby tv task

wake_failed : (wake_task lossy task).0 ≡ failed (cec (tx_error unknown_error))
unfolding wake_task linux_cec.Cecd.Task.Device.device_wake
wake_failed = refl

wake_fails_example :
    ((x : Error) × (lossy (tx_message image_view_on tv) task.history ≡ err x)
      × (cec (tx_error unknown_error) ≡ cec x))
    ⊎ ((cec (tx_error unknown_error) ≡ cec disconnected)
        × ((wake_task lossy task).1.awaiting_wake ≡ false))
wake_fails_example = wake_fails lossy task (cec (tx_error unknown_error)) wake_failed

abbrev own_source_sent : Call
own_source_sent = tx_message (active_source own_address) unregistered_or_broadcast

wake_repeats_example : wake_task quiet task ≡ (
  done tt,
  record task {
    awaiting_wake = true;
    history =
        sleep
        ∷ own_source_sent
        ∷ get_physical_address
        ∷ sleep
        ∷ own_source_sent
        ∷ get_physical_address
        ∷ tx_message image_view_on tv
        ∷ [];
  },
)
wake_repeats_example = wake_repeats quiet task own_address (λ h. refl) (λ m d h. refl)
