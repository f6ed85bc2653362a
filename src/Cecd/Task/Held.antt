-- ===== src/Cecd/Task/Held.antt =====
-- Which key of the input device is held down, by the calls so far (cecd/src/device.rs,
-- cecd/src/uinput.rs).
use linux_cec.Core.LogicalAddress.{logical_address_discriminant, LogicalAddress}
use linux_cec.Cecd.Task.Keys.{key_up, key_down, send_mapped, find_key}
use linux_cec.Cecd.Task.Answer.{no_answer, release, press, new_key_down, Answer, held_key_up}
use linux_cec.Operand.UiCommand.{UiCommand}
use linux_cec.Prelude.{
  ◌&&◌, ◌==◌, if◌then◌else◌, ◌∙◌, ap, arith, refl, ◌≢◌, false, [], true, ◌⊎◌, ◌∷◌, none, some, ◌≡◌,
  ℕ, List, Bool, Option,
}
use linux_cec.Cecd.Task.{
  finish, emit, Signal, pure, modify, panic, drop_uinput, failed, send_key, done, State, History,
  Env, Outcome, Action, ◌>>◌,
}
use linux_cec.Operand.UiCommand.{ui_command as ui_command_operand}
use linux_cec.Cecd.Task.{user_control_pressed, user_control_released}

-- Whether the input device takes an event.
abbrev pub is_taken : Outcome (Unit {0}) → Bool
is_taken (done u) = true
is_taken (failed e) = false
is_taken panic = false

-- Whether a key is down, by the events of that key. An event that is refused changes nothing, and a
-- device that is dropped holds no key.
abbrev pub held : Env → History → ℕ → Bool
held env [] k = false
held env (send_key key pressed ∷ history) k =
    if is_taken (env (send_key key pressed) history) && key == k
    then pressed
    else held env history k
held env (drop_uinput ∷ history) k = false
held env (c ∷ history) k = held env history k

abbrev pub is_key : Option ℕ → ℕ → Bool
is_key none k = false
is_key (some key) k = key == k

-- The key that a release of the active command lets go.
abbrev pub mapped : Option (List (UiCommand × ℕ)) → Option UiCommand → Option ℕ
mapped none command = none
mapped (some mappings) none = none
mapped (some mappings) (some command) = find_key mappings command

-- No key is held but that of the active command.
abbrev pub IsReleasable : Env → State → Type 0
IsReleasable env s =
    (k : ℕ) → held env s.history k ≡ true → is_key (mapped s.uinput s.active_key) k ≡ true

-- Letting one key go and pressing another, by the keys that are mapped.
abbrev change_keys : Env → Option ℕ → Option ℕ → UiCommand → Action Answer
change_keys env old new command =
    send_mapped env false old
    >> (send_mapped env true new
        >> (modify (λ s. record s { active_key = some command }) >> pure none))

-- For a key: it either stops with no other than the old one held, or holds just the new one.
abbrev Changed : Env → Option ℕ → Option ℕ → UiCommand → State → ℕ → Outcome Answer × State → Type 0
Changed env old new command s k (r, t) =
    (t.uinput ≡ s.uinput)
    × (((r ≢ done none)
          × (t.active_key ≡ s.active_key)
          × (held env t.history k ≡ true → is_key old k ≡ true))
        ⊎ ((r ≡ done none) × (t.active_key ≡ some command) × (held env t.history k ≡ is_key new k)))

module _ (env : Env) where
  held_key_up-mapped :
      (uinput : Option (List (UiCommand × ℕ))) (key : Option UiCommand)
      → held_key_up env uinput key ≡ send_mapped env false (mapped uinput key)
  unfolding key_up send_mapped
  held_key_up-mapped none key = refl
  held_key_up-mapped (some mappings) none = refl
  held_key_up-mapped (some mappings) (some key) = refl

  new_key_down-mapped :
      (uinput : Option (List (UiCommand × ℕ))) (key : UiCommand)
      → new_key_down env uinput key ≡ send_mapped env true (mapped uinput (some key))
  unfolding key_down send_mapped
  new_key_down-mapped none key = refl
  new_key_down-mapped (some mappings) key = refl

  change_keys_lem :
      (old new : Option ℕ) (command : UiCommand) (s : State) (k : ℕ)
      → (held env s.history k ≡ true → is_key old k ≡ true)
      → Changed env old new command s k (change_keys env old new command s)
  unfolding send_mapped
  change_keys_lem none none command s k h = grind arith
  change_keys_lem none (some n) command s k h = grind arith
  change_keys_lem (some o) none command s k h = grind arith
  change_keys_lem (some o) (some n) command s k h = grind arith

  -- The state behind the signal that a press or a release begins with.
  abbrev signalled : Signal → State → State
  signalled signal s = record s { history = emit signal ∷ s.history }

  pressed_held :
      (signal : Signal) (key : UiCommand) (s : State) (r : Outcome (Unit {0}))
      → IsReleasable env s
      → let t =
          (finish r
              >> change_keys env (mapped s.uinput s.active_key) (mapped s.uinput (some key)) key)
            (signalled signal s) in
        IsReleasable env t.1
        × (t.0 ≡ done none
            → (k : ℕ) → held env t.1.history k ≡ is_key (mapped t.1.uinput (some key)) k)
  pressed_held signal key s (done u) h =
      let each = λ (k : ℕ).
        change_keys_lem (mapped s.uinput s.active_key) (mapped s.uinput (some key)) key
          (signalled signal s) k (h k) in
      (λ k e. grind (arith, each k), λ d k. grind (arith, each k))
  pressed_held signal key s (failed e) h = (h, λ d k. cc)
  pressed_held signal key s panic h = (h, λ d k. cc)

  -- A press, by what lets the old key go and what presses the new one.
  abbrev press_with :
      Signal → State → UiCommand → Action (Unit {0}) → Action (Unit {0}) → Outcome Answer × State
  press_with signal s key up down =
      (finish (env (emit signal) s.history)
          >> (up >> (down >> (modify (λ s. record s { active_key = some key }) >> pure none))))
        (signalled signal s)

  press_as :
      (initiator : LogicalAddress) (key : UiCommand) (s : State)
      → let signal =
          user_control_pressed
            (ui_command_operand.to_bytes key)
            (logical_address_discriminant initiator) in
        press env initiator key s
        ≡ (finish (env (emit signal) s.history)
              >> change_keys env (mapped s.uinput s.active_key) (mapped s.uinput (some key)) key)
            (signalled signal s)
  unfolding press
  press_as initiator key s =
      let signal =
        user_control_pressed (ui_command_operand.to_bytes key)
          (logical_address_discriminant initiator) in
      ap (λ up. press_with signal s key up (new_key_down env s.uinput key))
        (held_key_up-mapped s.uinput s.active_key)
      ∙ ap (press_with signal s key (send_mapped env false (mapped s.uinput s.active_key)))
          (new_key_down-mapped s.uinput key)

  -- If every key of the input device that is down is the one that the active command is mapped to,
  -- then so it is after a pressed command, also where an event of the input device is refused; and
  -- if the command is handled, the key that it is mapped to is down and no other, and none if it is
  -- not mapped.
  pub press-held :
      (initiator : LogicalAddress) (key : UiCommand) (s : State)
      → IsReleasable env s
      → let (r, t) = press env initiator key s in
        IsReleasable env t
        × (r ≡ done none → (k : ℕ) → held env t.history k ≡ is_key (mapped t.uinput (some key)) k)
  press-held initiator key s h =
      let signal =
        user_control_pressed (ui_command_operand.to_bytes key)
          (logical_address_discriminant initiator) in
      rw (press_as initiator key s) (pressed_held signal key s (env (emit signal) s.history) h)

  abbrev let_go : Option ℕ → Action Answer
  let_go old =
      send_mapped env false old >> (modify (λ s. record s { active_key = none }) >> pure none)

  let_go_lem :
      (old : Option ℕ) (s : State) (k : ℕ)
      → (held env s.history k ≡ true → is_key old k ≡ true)
      → let (r, t) = let_go old s in
        (t.uinput ≡ s.uinput)
        × (((r ≢ done none)
              × (t.active_key ≡ s.active_key)
              × (held env t.history k ≡ true → is_key old k ≡ true))
            ⊎ ((r ≡ done none) × (held env t.history k ≡ false)))
  unfolding send_mapped
  let_go_lem none s k h = grind arith
  let_go_lem (some o) s k h = grind arith

  released_held :
      (signal : Signal) (s : State) (r : Outcome (Unit {0}))
      → IsReleasable env s
      → let t = (finish r >> let_go (mapped s.uinput s.active_key)) (signalled signal s) in
        IsReleasable env t.1 × (t.0 ≡ done none → (k : ℕ) → held env t.1.history k ≡ false)
  released_held signal s (done u) h =
      let each =
        λ (k : ℕ). let_go_lem (mapped s.uinput s.active_key) (signalled signal s) k (h k) in
      (λ k e. grind (arith, each k), λ d k. grind (arith, each k))
  released_held signal s (failed e) h = (h, λ d k. cc)
  released_held signal s panic h = (h, λ d k. cc)

  release_as :
      (initiator : LogicalAddress) (s : State)
      → let signal = user_control_released (logical_address_discriminant initiator) in
        release env initiator s
        ≡ (finish (env (emit signal) s.history) >> let_go (mapped s.uinput s.active_key))
            (signalled signal s)
  unfolding release
  release_as initiator s =
      let signal = user_control_released (logical_address_discriminant initiator) in
      ap
        (λ (up : Action (Unit {0})).
          (finish (env (emit signal) s.history)
              >> (up >> (modify (λ s. record s { active_key = none }) >> no_answer)))
            (signalled signal s))
        (held_key_up-mapped s.uinput s.active_key)

  -- If every key of the input device that is down is the one that the active command is mapped to,
  -- then so it is after the command is released, also where the event of the input device is
  -- refused; and if the release is handled, every key is up.
  pub release-held :
      (initiator : LogicalAddress) (s : State)
      → IsReleasable env s
      → let (r, t) = release env initiator s in
        IsReleasable env t × (r ≡ done none → (k : ℕ) → held env t.history k ≡ false)
  release-held initiator s h =
      let signal = user_control_released (logical_address_discriminant initiator) in
      rw (release_as initiator s) (released_held signal s (env (emit signal) s.history) h)
