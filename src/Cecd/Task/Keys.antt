-- ===== src/Cecd/Task/Keys.antt =====
-- The input device of the task: `key_down` and `key_up` (cecd/src/uinput.rs), and
-- `configure_uinput` (cecd/src/device.rs).
use native.Mathlib.Decide.{ℕ_discrete}
use mathlib.Core.Logic.{ite}
use mathlib.Core.Bool.{not}
use linux_cec.Cecd.Task.{Config, open_uinput, ◌>>=◌, ◌>>◌}
use linux_cec.Operand.UiCommand.{UiCommand}
use linux_cec.Prelude.{◌||◌, if◌then◌else◌, [], ◌∷◌, some, none, false, true, ℕ, Bool, Option, List}
use linux_cec.Cecd.Task.{
  finish, drop_uinput, read_config, send_key, modify, perform, pure, gets, Env, Action,
}

pub UiCommand-discrete : Discrete UiCommand
UiCommand-discrete = hlevel (ℕ_discrete)

-- `mappings.get(&uikey)`
unfoldable pub find_key : List (UiCommand × ℕ) → UiCommand → Option ℕ
unfolding UiCommand-discrete
find_key [] ui = none
find_key ((command, key) ∷ mappings) ui =
    ite (UiCommand-discrete command ui) (some key) (find_key mappings ui)

-- Both end in `send_key_event`, if there is a mapping.
unfoldable pub send_mapped : Env → Bool → Option ℕ → Action (Unit {0})
send_mapped env pressed none = pure tt
send_mapped env pressed (some key) = perform env (send_key key pressed) >>= finish

unfoldable pub key_down : Env → List (UiCommand × ℕ) → UiCommand → Action (Unit {0})
unfolding send_mapped find_key
key_down env mappings ui = send_mapped env true (find_key mappings ui)

unfoldable pub key_up : Env → List (UiCommand × ℕ) → UiCommand → Action (Unit {0})
unfolding send_mapped find_key
key_up env mappings ui = send_mapped env false (find_key mappings ui)

-- Assigning to `uinput` drops the old device.
abbrev pub drop_old : Env → Option (List (UiCommand × ℕ)) → Action (Unit {0})
drop_old env none = pure tt
drop_old env (some mappings) = perform env drop_uinput

abbrev pub is_empty {ℓ} : {A : Type ℓ} → List A → Bool
is_empty [] = true
is_empty (x ∷ xs) = false

-- The calls of `UInputDevice` that open it, and of the device for its name, are one call here.
unfoldable pub open_device : Env → Config → Action (Unit {0})
open_device env config =
    if is_empty config.mappings || not config.uinput
    then pure tt
    else (perform env (open_uinput config.mappings) >>= finish)
      >> modify (λ s. record s { uinput = some config.mappings })

unfoldable pub drop_device : Env → Action (Unit {0})
drop_device env = do
  old ← gets (λ s. s.uinput)
  drop_old env old
  modify (λ s. record s { uinput = none })

unfoldable pub configure_uinput : Env → Action (Unit {0})
unfolding open_device drop_device
configure_uinput env = drop_device env >> (perform env read_config >>= open_device env)
