-- ===== src/Cecd/Task/Replies.antt =====
-- What the task answers to a message, and how the answer is sent (cecd/src/device.rs).
use linux_cec.Cecd.Task.Wake.{set_awaiting}
use linux_cec.Core.PhysicalAddress.{PhysicalAddress}
use linux_cec.Cecd.Task.Poll.{announce}
use linux_cec.Operand.UiCommand.{UiCommand}
use linux_cec.Core.LogicalAddress.{tv, logical_address_discriminant, LogicalAddress}
use linux_cec.Cecd.Task.Device.{set_active, physical_address, broadcast}
use linux_cec.Prelude.{false, ◌==◌, true, ◌||◌, if◌then◌else◌, Option, Bool, refl, none, ◌≡◌, some}
use linux_cec.Device.Envelope.{Envelope}
use linux_cec.Cecd.Task.Answer.{
  is_own, active_source_request, other_active, audio_mode, routing, stream_path, new_key_down,
  held_key_up, release, no_answer, press, answer_valid, Answer, answer_other,
}
use linux_cec.Message.Data.{
  request_active_source, give_device_power_status, system_audio_mode_status, set_system_audio_mode,
  routing_change, set_stream_path, Message, active_source,
}
use linux_cec.Cecd.Task.{
  audio_logical_address_changed, gets, pure, modify, panic, failed, State, done, Outcome, Env,
  Action, ◌>>=◌, ◌>>◌,
}
use linux_cec.Operand.UiCommand.{ui_command as ui_command_operand}
use linux_cec.Cecd.Task.{user_control_pressed, user_control_released}

-- The message with which an answer says that a message is not supported.
abbrev pub IsAbort : Outcome Answer → Type 0
IsAbort (done (some (Message.feature_abort opcode reason, address))) = Unit
IsAbort other = ⊥

-- No abort: what an action gives if it succeeds is decided behind its first part.
abbrev NoAbort : Action Answer → Type 0
NoAbort m = (s : State) → ¬ IsAbort (m s).0

behind :
    {A : Type 0} (m : Action A) (f : A → Action Answer)
    → ((a : A) → NoAbort (f a))
    → NoAbort (m >>= f)
behind {A} m f h s = decided (m s).0 (m s).1
  where
    decided : (r : Outcome A) (t : State) → ¬ IsAbort (((λ (u : State). (r, t)) >>= f) s).0
    decided (done a) t = h a t
    decided (failed e) t = λ x. x
    decided panic t = λ x. x

no_answer-NoAbort : NoAbort no_answer
no_answer-NoAbort s x = x

module _ (env : Env) where
  other_broadcast :
      (e : Envelope) (s : State) → e.destination ≡ broadcast → answer_other env e s ≡ (done none, s)
  unfolding answer_other
  other_broadcast e s h = rw h refl

  abbrev with_key : Option UiCommand → Action Answer
  with_key key = modify (λ s. record s { active_key = key }) >> no_answer

  press-NoAbort : (i : LogicalAddress) (key : UiCommand) → NoAbort (press env i key)
  unfolding press
  press-NoAbort i key =
      behind
        (announce env
          (user_control_pressed (ui_command_operand.to_bytes key) (logical_address_discriminant i)))
        (λ _. gets (λ s. s.uinput) >>= λ uinput. gets (λ s. s.active_key) >>= λ old.
          held_key_up env uinput old >> (new_key_down env uinput key >> with_key (some key)))
        (λ u s.
          behind (held_key_up env s.uinput s.active_key)
            (λ _. new_key_down env s.uinput key >> with_key (some key))
            (λ u. behind (new_key_down env s.uinput key) (λ _. with_key (some key)) (λ u s x. x)) s)

  release-NoAbort : (i : LogicalAddress) → NoAbort (release env i)
  unfolding release
  release-NoAbort i =
      behind (announce env (user_control_released (logical_address_discriminant i)))
        (λ _. gets (λ s. s.uinput) >>= λ uinput.
          gets (λ s. s.active_key) >>= λ old. held_key_up env uinput old >> with_key none)
        (λ u s. behind (held_key_up env s.uinput s.active_key) (λ _. with_key none) (λ u s x. x) s)

  stream_answer-NoAbort :
      (own : PhysicalAddress) (b : Bool)
      → NoAbort (pure (if b then some (active_source own, broadcast) else none))
  stream_answer-NoAbort own true s x = x
  stream_answer-NoAbort own false s x = x

  stream_path-NoAbort : (a : PhysicalAddress) → NoAbort (stream_path env a)
  unfolding stream_path
  stream_path-NoAbort a =
      behind (physical_address env)
        (λ own.
          set_active env (is_own a own)
          >> pure (if is_own a own then some (active_source own, broadcast) else none))
        (λ own.
          behind (set_active env (is_own a own))
            (λ _. pure (if is_own a own then some (active_source own, broadcast) else none))
            (λ u. stream_answer-NoAbort own (is_own a own)))

  other_active-NoAbort : (a : PhysicalAddress) → NoAbort (other_active env a)
  unfolding other_active
  other_active-NoAbort a =
      behind (physical_address env) (λ own. set_active env (is_own a own) >> no_answer)
        (λ own. behind (set_active env (is_own a own)) (λ _. no_answer) (λ u s x. x))

  routing-NoAbort : (a : PhysicalAddress) → NoAbort (routing env a)
  unfolding routing
  routing-NoAbort a =
      behind (physical_address env)
        (λ own.
          (if is_own a own then set_awaiting false else pure tt)
          >> (set_active env (is_own a own) >> no_answer))
        (λ own.
          behind (if is_own a own then set_awaiting false else pure tt)
            (λ _. set_active env (is_own a own) >> no_answer)
            (λ u. behind (set_active env (is_own a own)) (λ _. no_answer) (λ u s x. x)))

  abbrev cache_audio : LogicalAddress → Bool → Action (Unit {0})
  cache_audio address same =
      if same
      then pure tt
      else (modify (λ s. record s { cached_audio_log_addr = logical_address_discriminant address })
          >> announce env (audio_logical_address_changed (logical_address_discriminant address)))

  audio_mode-NoAbort : (i : LogicalAddress) (status : Bool) → NoAbort (audio_mode env i status)
  unfolding audio_mode
  audio_mode-NoAbort i status s =
      let address = if status then i else tv in
      behind (cache_audio address (s.cached_audio_log_addr == logical_address_discriminant address))
        (λ _. no_answer) (λ u s x. x) (record s { audio_log_addr = address })

  source_request-NoAbort :
      (e : Envelope) → e.destination ≡ broadcast → NoAbort (active_source_request env e)
  unfolding active_source_request
  source_request-NoAbort e h s = chosen (s.awaiting_wake || s.active)
    where
      chosen :
          (b : Bool)
          → ¬ IsAbort
              ((if b
                  then (physical_address env >>= λ own. pure (some (active_source own, broadcast)))
                  else answer_other env e)
                s).0
      chosen true x =
          behind (physical_address env) (λ own. pure (some (active_source own, broadcast)))
            (λ own s x. x) s x
      chosen false x = rw (other_broadcast e s h) at x

  -- A message to all devices is answered with a feature abort only if it is Standby.
  pub broadcast_abort :
      (e : Envelope) (m : Message) (s : State)
      → e.destination ≡ broadcast
      → IsAbort (answer_valid env e m s).0
      → m ≡ Message.standby
  unfolding answer_valid
  broadcast_abort e m s h =
      elim m as (λ k. IsAbort (answer_valid env e k s).0 → k ≡ Message.standby) [
        | Message.standby ↦ λ a. refl
        | give_device_power_status ↦ λ a. absurd a
        | Message.user_control_pressed key ↦ λ a. absurd (press-NoAbort e.initiator key s a)
        | Message.user_control_released ↦ λ a. absurd (release-NoAbort e.initiator s a)
        | set_stream_path p ↦ λ a. absurd (stream_path-NoAbort p s a)
        | active_source p ↦ λ a. absurd (other_active-NoAbort p s a)
        | routing_change o p ↦ λ a. absurd (routing-NoAbort p s a)
        | request_active_source ↦ λ a. absurd (source_request-NoAbort e h s a)
        | set_system_audio_mode b ↦ λ a. absurd (audio_mode-NoAbort e.initiator b s a)
        | system_audio_mode_status b ↦ λ a. absurd (audio_mode-NoAbort e.initiator b s a)
        | Message.feature_abort o r ↦ λ a. absurd a
        | _ ↦ λ a. absurd (rw (other_broadcast e s h) at a)
      ]
