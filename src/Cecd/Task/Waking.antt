-- ===== src/Cecd/Task/Waking.antt =====
-- How a wake of the TV ends (cecd/src/device.rs).
use linux_cec.Core.LogicalAddress.{tv, LogicalAddress}
use linux_cec.Core.PhysicalAddress.{PhysicalAddress}
use linux_cec.Cecd.Task.Device.{device_wake, broadcast, own_source, set_active_source}
use linux_cec.Cecd.Task.Wake.{
  set_awaiting, wake_task, wake_tries, is_disconnected, after_configure, after_source,
}
use linux_cec.Core.Error.{Error, panicked, no_logical_address, disconnected, err, ok, Result}
use linux_cec.Prelude.{
  ap, ◌∙◌, none, ◌⊎◌, zero, true, suc, ℕ, if◌then◌else◌, Bool, refl, ◌∷◌, inr, inl, false,
  Bool-cases, ◌≡◌, Option,
}
use linux_cec.Message.Data.{image_view_on, Message, active_source}
use linux_cec.Cecd.Task.{
  lift, History, Failure, get_physical_address, tx_message, pure, perform, sleep, panic,
  configure_dev, cec, failed, DrmConnector, done, State, Outcome, Env, Action, ◌>>=◌, ◌>>◌,
}
use linux_cec.Cecd.Task.{◌>>◌}
use linux_cec.Core.LogicalAddress.{tv}
use linux_cec.Cecd.Task.{failed, done, sleep}

module _ (env : Env) where
  -- The loop fails only if the device is gone, and then no longer waits.
  abbrev pub OnlyDisconnects : Outcome (Unit {0}) × State → Type 0
  OnlyDisconnects (done u, s) = Unit
  OnlyDisconnects (failed e, s) = (e ≡ cec disconnected) × (s.awaiting_wake ≡ false)
  OnlyDisconnects (panic, s) = Unit

  module _ (next : Action (Unit {0})) (k : (s : State) → OnlyDisconnects (next s)) where
    configured_only :
        (r : Outcome (Option DrmConnector)) (s : State)
        → OnlyDisconnects (after_configure env next r s)
    configured_only (done c) s = k (record s { connector = c })
    configured_only (failed e) s = elim (Bool-cases (is_disconnected e)) [
      | inl gone ↦ rw gone (refl, refl)
      | inr other ↦ rw other (k s)
    ]
    configured_only panic s = tt

    waited :
        (waits : Bool) (s : State)
        → OnlyDisconnects ((if waits then perform env sleep >> next else pure tt) s)
    waited true s = k (record s { history = sleep ∷ s.history })
    waited false s = tt

    source_only : (r : Result (Unit {0})) (s : State) → OnlyDisconnects (after_source env next r s)
    source_only (ok u) s = waited s.awaiting_wake s
    source_only (err e) s = elim e as (λ x. OnlyDisconnects (after_source env next (err x) s)) [
      | no_logical_address ↦
          configured_only (env (configure_dev s.connector) s.history)
            (record s { history = configure_dev s.connector ∷ s.history })
      | disconnected ↦ (refl, refl)
      | _ ↦ k (record s { history = sleep ∷ s.history })
    ]
    source_only panicked s = tt

  sourced_only :
      (next : Action (Unit {0}))
      → ((s : State) → OnlyDisconnects (next s))
      → (r : Result PhysicalAddress) (t : State)
      → OnlyDisconnects ((own_source env r >>= after_source env next) t)
  sourced_only next k (ok a) t =
      source_only next k (env (tx_message (active_source a) broadcast) t.history)
        (record t { history = tx_message (active_source a) broadcast ∷ t.history })
  sourced_only next k (err e) t = source_only next k (err e) t
  sourced_only next k panicked t = tt

  tries_only : (n : ℕ) (s : State) → OnlyDisconnects (wake_tries env n s)
  unfolding wake_tries set_active_source
  tries_only zero s = tt
  tries_only (suc n) s =
      sourced_only (wake_tries env n) (tries_only n) (env get_physical_address s.history)
        (record s { history = get_physical_address ∷ s.history })

  only_failed :
      (r : Outcome (Unit {0})) (s : State) (e : Failure)
      → OnlyDisconnects (r, s)
      → r ≡ failed e
      → (e ≡ cec disconnected) × (s.awaiting_wake ≡ false)
  only_failed (done u) s e o h = cc
  only_failed (failed x) s e o h = (cc, o.1)
  only_failed panic s e o h = cc

  -- What follows the message that turns the image on.
  abbrev woken_by : Result (Unit {0}) → State → Outcome (Unit {0}) × State
  woken_by r = (lift r >> pure tt) >> (set_awaiting true >> wake_tries env 2)

  woken :
      (r : Result (Unit {0})) (t : State) (e : Failure)
      → (woken_by r t).0 ≡ failed e
      → ((x : Error) × (r ≡ err x) × (e ≡ cec x))
        ⊎ ((e ≡ cec disconnected) × ((woken_by r t).1.awaiting_wake ≡ false))
  woken (ok u) t e h =
      let t' = record t { awaiting_wake = true } in
      inr (only_failed (wake_tries env 2 t').0 (wake_tries env 2 t').1 e (tries_only 2 t') h)
  woken (err x) t e h = inl (x, refl, cc)
  woken panicked t e h = cc

  -- Waking the TV fails only with the error of sending the first message, or because the device is
  -- gone, and then the task no longer waits for the TV.
  pub wake_fails :
      (s : State) (e : Failure)
      → (wake_task env s).0 ≡ failed e
      → ((x : Error) × (env (tx_message image_view_on tv) s.history ≡ err x) × (e ≡ cec x))
        ⊎ ((e ≡ cec disconnected) × ((wake_task env s).1.awaiting_wake ≡ false))
  unfolding wake_task device_wake
  wake_fails s e h =
      woken (env (tx_message image_view_on tv) s.history)
        (record s { history = tx_message image_view_on tv ∷ s.history }) e h

  abbrev tried : PhysicalAddress → State → State
  tried own s = record s {
    history = sleep ∷ tx_message (active_source own) broadcast ∷ get_physical_address ∷ s.history;
  }

  try_again :
      (next : Action (Unit {0})) (s : State) (own : PhysicalAddress)
      → ((h : History) → env get_physical_address h ≡ ok own)
      → ((m : Message) (d : LogicalAddress) (h : History) → env (tx_message m d) h ≡ ok tt)
      → s.awaiting_wake ≡ true
      → (set_active_source env none >>= after_source env next) s ≡ next (tried own s)
  unfolding set_active_source
  try_again next s own a t waits =
      let s1 = record s { history = get_physical_address ∷ s.history } in
      let s2 = record s {
        history = tx_message (active_source own) broadcast ∷ get_physical_address ∷ s.history;
      } in
      ap (λ (r : Result PhysicalAddress). (own_source env r >>= after_source env next) s1)
        (a s.history)
      ∙ ap (λ (r : Result (Unit {0})). after_source env next r s2)
          (t (active_source own) broadcast s1.history)
      ∙ ap (λ (b : Bool). (if b then perform env sleep >> next else pure tt) s2) waits

  -- Where every message is sent and the own address is known, waking the TV always sends
  -- ActiveSource twice and sleeps twice, and the task still waits afterwards.
  pub wake_repeats :
      (s : State) (own : PhysicalAddress)
      → ((h : History) → env get_physical_address h ≡ ok own)
      → ((m : Message) (d : LogicalAddress) (h : History) → env (tx_message m d) h ≡ ok tt)
      → let source = tx_message (active_source own) broadcast in
        wake_task env s ≡ (
          done tt,
          record s {
            awaiting_wake = true;
            history =
                sleep
                ∷ source
                ∷ get_physical_address
                ∷ sleep
                ∷ source
                ∷ get_physical_address
                ∷ tx_message image_view_on tv
                ∷ s.history;
          },
        )
  unfolding wake_task device_wake wake_tries set_active_source
  wake_repeats s own a t =
      let s1 = record s {
        awaiting_wake = true;
        history = tx_message image_view_on tv ∷ s.history;
      } in
      let s2 = tried own s1 in
      ap
        (λ (r : Result (Unit {0})).
          woken_by r (record s { history = tx_message image_view_on tv ∷ s.history }))
        (t image_view_on tv s.history)
      ∙ try_again (wake_tries env 1) s1 own a t refl
      ∙ try_again (wake_tries env 0) s2 own a t refl
