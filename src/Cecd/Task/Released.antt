-- ===== src/Cecd/Task/Released.antt =====
-- In every state that the task reaches, no key of the input device is held but that of the active
-- command (cecd/src/device.rs).
use mathlib.Core.Bool.{not}
use linux_cec.Operand.UiCommand.{UiCommand}
use linux_cec.Cecd.Task.Frame.Events.{Reached-Kept}
use linux_cec.Prelude.{false, true, some, ℕ, ◌||◌, List, Option, refl, none, arith, ◌≡◌, ◌∷◌, Bool}
use linux_cec.Cecd.Task.Held.{is_key, mapped, release-held, press-held, held, IsReleasable}
use linux_cec.Cecd.Task.Commands.{Reached}
use linux_cec.Cecd.Task.Logic.{>>=-Keeps, if-Keeps, Keeps}
use linux_cec.Core.LogicalAddress.{LogicalAddress}
use linux_cec.Cecd.Task.Device.{announce_active, set_active}
use linux_cec.Cecd.Task.Answer.{audio_mode}
use linux_cec.Cecd.Task.Frame.{IsQuiet, IsFrame}
use linux_cec.Cecd.Task.Keys.{drop_old, is_empty, configure_uinput, open_device, drop_device}
use linux_cec.Cecd.Task.{
  finish, open_uinput, pure, read_config, perform, modify, drop_uinput, send_key, Config, Call,
  State, Env, ◌>>=◌, ◌>>◌,
}

module _ (env : Env) where
  call-IsReleasable :
      (c : Call) (s : State)
      → IsQuiet c
      → IsReleasable env s
      → IsReleasable env (record s { history = c ∷ s.history })
  call-IsReleasable c s =
      elim c
        as (λ c.
          IsQuiet c
          → IsReleasable env s
          → IsReleasable env (record s { history = c ∷ s.history })) [
            | send_key key pressed ↦ λ q h. absurd q
            | drop_uinput ↦ λ q h. absurd q
            | _ ↦ λ q h. h
          ]

  set_active-IsReleasable : (b : Bool) → Keeps (IsReleasable env) (set_active env b)
  unfolding set_active announce_active
  set_active-IsReleasable b s h = grind arith

  audio_mode-IsReleasable :
      (initiator : LogicalAddress) (status : Bool)
      → Keeps (IsReleasable env) (audio_mode env initiator status)
  unfolding audio_mode
  audio_mode-IsReleasable initiator status s h = grind arith

  abbrev NoneHeld : State → Type 0
  NoneHeld s = (k : ℕ) → held env s.history k ≡ false

  open_device-NoneHeld : (c : Config) → Keeps NoneHeld (open_device env c)
  unfolding open_device
  open_device-NoneHeld c =
      if-Keeps NoneHeld (is_empty c.mappings || not c.uinput) (pure tt)
        ((perform env (open_uinput c.mappings) >>= finish)
          >> modify (λ s. record s { uinput = some c.mappings }))
        (λ s h. h)
        (>>=-Keeps NoneHeld (perform env (open_uinput c.mappings) >>= finish)
          (λ _. modify (λ s. record s { uinput = some c.mappings }))
          (>>=-Keeps NoneHeld (perform env (open_uinput c.mappings)) finish (λ s h. h) (λ r s h. h))
          (λ _ s h. h))

  -- A device that is dropped holds no key, and without one none was held.
  reopened :
      (uinput : Option (List (UiCommand × ℕ))) (s : State)
      → ((k : ℕ) → held env s.history k ≡ true → is_key (mapped uinput s.active_key) k ≡ true)
      → NoneHeld
          (((drop_old env uinput >> modify (λ s. record s { uinput = none }))
              >> (perform env read_config >>= open_device env))
            s).1
  reopened none s h =
      open_device-NoneHeld (env read_config s.history)
        (record s { uinput = none; history = read_config ∷ s.history }) (λ k. ground (arith, h k))
  reopened (some mappings) s h =
      open_device-NoneHeld (env read_config (drop_uinput ∷ s.history))
        (record s { uinput = none; history = read_config ∷ drop_uinput ∷ s.history }) (λ k. refl)

  configure_uinput-IsReleasable : Keeps (IsReleasable env) (configure_uinput env)
  unfolding configure_uinput drop_device
  configure_uinput-IsReleasable s h k e = absurd (ground (arith, reopened s.uinput s h k))

  IsReleasable-IsFrame : IsFrame (IsReleasable env) env
  IsReleasable-IsFrame = record {
    kept_by_call = call-IsReleasable;
    kept_by_write = λ s tries waits c waiting phys_addr log_addrs vendor_id bound h. h;
    kept_by_set_active = set_active-IsReleasable;
    kept_by_audio_mode = audio_mode-IsReleasable;
    kept_by_press = λ initiator key s h. (press-held env initiator key s h).0;
    kept_by_release = λ initiator s h. (release-held env initiator s h).0;
    kept_by_configure_uinput = configure_uinput-IsReleasable;
  }

  -- In every state that a device's task reaches, whatever the environment answers, also if it
  -- refuses events of the input device or if the device is opened anew with other mappings: every
  -- key of the input device that is down, by the events of that very key, is the one that the
  -- active command is mapped to.
  pub Reached-IsReleasable : {s : State} → Reached env s → IsReleasable env s
  Reached-IsReleasable =
      Reached-Kept (IsReleasable env) env IsReleasable-IsFrame (λ p xs v c k e. cc)
