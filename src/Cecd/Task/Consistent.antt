-- ===== src/Cecd/Task/Consistent.antt =====
-- What the interface has cached agrees with the task's state, and the tries are bounded
-- (cecd/src/device.rs).
use linux_cec.Cecd.Task.Poll.{log_addr_retries, announce}
use linux_cec.Cecd.Task.Frame.Events.{Reached-Kept}
use linux_cec.Core.LogicalAddress.{logical_address_discriminant, LogicalAddress}
use linux_cec.Cecd.Task.Logic.{>>=-Keeps, Keeps}
use linux_cec.Operand.UiCommand.{UiCommand}
use linux_cec.Cecd.Task.Device.{announce_active, set_active}
use linux_cec.Cecd.Task.Answer.{held_key_up, new_key_down, Answer, press, release, audio_mode}
use linux_cec.Cecd.Task.Frame.{IsFrame}
use linux_cec.Prelude.{none, true, false, ◌≤◌, some, ℕ, arith, Bool, List, ◌≡◌, Option}
use linux_cec.Cecd.Task.Commands.{Reached}
use linux_cec.Cecd.Task.Keys.{
  find_key, send_mapped, key_down, configure_uinput, drop_device, key_up, open_device,
}
use linux_cec.Cecd.Task.{
  gets, pure, read_config, user_control_pressed, modify, perform, Config, Signal, Action, State,
  Env, ◌>>=◌, ◌>>◌,
}
use linux_cec.Operand.UiCommand.{ui_command as ui_command_operand}
use linux_cec.Cecd.Task.{user_control_pressed}

pub record IsConsistent (s : State) : Type 0 where
  pub active_cached : s.cached_active ≡ s.active
  pub audio_cached : s.cached_audio_log_addr ≡ logical_address_discriminant s.audio_log_addr
  pub tries_bounded : s.log_addr_try ≤ log_addr_retries

module _ (env : Env) where
  then-IsConsistent :
      {A B : Type 0} (m : Action A) (n : Action B)
      → Keeps IsConsistent m
      → Keeps IsConsistent n
      → Keeps IsConsistent (m >> n)
  then-IsConsistent m n h k = >>=-Keeps IsConsistent m (λ _. n) h (λ _. k)

  announce-IsConsistent : (signal : Signal) → Keeps IsConsistent (announce env signal)
  announce-IsConsistent signal s h = ground arith

  set_active-IsConsistent : (b : Bool) → Keeps IsConsistent (set_active env b)
  unfolding set_active announce_active
  set_active-IsConsistent b s h = ground arith

  audio_mode-IsConsistent :
      (initiator : LogicalAddress) (status : Bool)
      → Keeps IsConsistent (audio_mode env initiator status)
  unfolding audio_mode
  audio_mode-IsConsistent initiator status s h = ground arith

  send_mapped-IsConsistent :
      (pressed : Bool) (key : Option ℕ) → Keeps IsConsistent (send_mapped env pressed key)
  unfolding send_mapped
  send_mapped-IsConsistent pressed none s h = h
  send_mapped-IsConsistent pressed (some key) s h = ground arith

  held_key_up-IsConsistent :
      (uinput : Option (List (UiCommand × ℕ))) (key : Option UiCommand)
      → Keeps IsConsistent (held_key_up env uinput key)
  unfolding key_up
  held_key_up-IsConsistent none key s h = h
  held_key_up-IsConsistent (some mappings) none s h = h
  held_key_up-IsConsistent (some mappings) (some key) s h =
      send_mapped-IsConsistent false (find_key mappings key) s h

  new_key_down-IsConsistent :
      (uinput : Option (List (UiCommand × ℕ))) (key : UiCommand)
      → Keeps IsConsistent (new_key_down env uinput key)
  unfolding key_down
  new_key_down-IsConsistent none key s h = h
  new_key_down-IsConsistent (some mappings) key s h =
      send_mapped-IsConsistent true (find_key mappings key) s h

  abbrev set_key : Option UiCommand → Action Answer
  set_key key = modify (λ s. record s { active_key = key }) >> pure none

  set_key-IsConsistent : (key : Option UiCommand) → Keeps IsConsistent (set_key key)
  set_key-IsConsistent key s h = ground arith

  press-IsConsistent :
      (initiator : LogicalAddress) (key : UiCommand) → Keeps IsConsistent (press env initiator key)
  unfolding press
  press-IsConsistent initiator key =
      then-IsConsistent
        (announce env (
          user_control_pressed (ui_command_operand.to_bytes key)
            (logical_address_discriminant initiator)))
        (gets (λ s. s.uinput) >>= λ uinput. gets (λ s. s.active_key) >>= λ old.
          held_key_up env uinput old >> (new_key_down env uinput key >> set_key (some key)))
        (announce-IsConsistent (
          user_control_pressed (ui_command_operand.to_bytes key)
            (logical_address_discriminant initiator)))
        (λ s h.
          then-IsConsistent (held_key_up env s.uinput s.active_key)
            (new_key_down env s.uinput key >> set_key (some key))
            (held_key_up-IsConsistent s.uinput s.active_key)
            (then-IsConsistent (new_key_down env s.uinput key) (set_key (some key))
              (new_key_down-IsConsistent s.uinput key) (set_key-IsConsistent (some key)))
            s h)

  release-IsConsistent : (initiator : LogicalAddress) → Keeps IsConsistent (release env initiator)
  unfolding release key_up send_mapped
  release-IsConsistent initiator s h = ground arith

  drop_device-IsConsistent : Keeps IsConsistent (drop_device env)
  unfolding drop_device
  drop_device-IsConsistent s h = ground arith

  open_device-IsConsistent : (c : Config) → Keeps IsConsistent (open_device env c)
  unfolding open_device
  open_device-IsConsistent c s h = ground arith

  configure_uinput-IsConsistent : Keeps IsConsistent (configure_uinput env)
  unfolding configure_uinput
  configure_uinput-IsConsistent =
      then-IsConsistent (drop_device env) (perform env read_config >>= open_device env)
        drop_device-IsConsistent
        (>>=-Keeps IsConsistent (perform env read_config) (open_device env) (λ s h. ground arith)
          open_device-IsConsistent)

  IsConsistent-IsFrame : IsFrame IsConsistent env
  IsConsistent-IsFrame = record {
    kept_by_call = λ c s q h. ground arith;
    kept_by_write = λ s tries waits c waiting phys_addr log_addrs vendor_id bound h. ground arith;
    kept_by_set_active = set_active-IsConsistent;
    kept_by_audio_mode = audio_mode-IsConsistent;
    kept_by_press = press-IsConsistent;
    kept_by_release = release-IsConsistent;
    kept_by_configure_uinput = configure_uinput-IsConsistent;
  }

  -- In every state that a device's task reaches, whatever the environment answers and whatever is
  -- polled or commanded: what the interface has cached of the active flag and of the audio system's
  -- address is what the task holds, and there are at most 20 tries left for a logical address.
  pub Reached-IsConsistent : {s : State} → Reached env s → IsConsistent s
  Reached-IsConsistent =
      Reached-Kept IsConsistent env IsConsistent-IsFrame (λ p xs v c. ground arith)
