-- ===== src/Cecd/Task/Tracking.antt =====
-- Whether the task is active follows the source that the bus has chosen (cecd/src/device.rs).
use linux_cec.Cecd.Task.Wake.{set_awaiting}
use linux_cec.Core.Error.{Result, ok}
use linux_cec.Device.Envelope.{Envelope}
use linux_cec.Cecd.Task.Device.{broadcast, announce_active, set_active}
use linux_cec.Cecd.Task.Answer.{
  no_answer, Answer, is_own, routing, other_active, stream_path, answer_valid,
}
use linux_cec.Core.PhysicalAddress.{PhysicalAddress}
use linux_cec.Prelude.{
  true, refl, ◌∷◌, ◌∙◌, false, ap, if◌then◌else◌, arith, ◌≡◌, none, Bool, some, Option,
}
use linux_cec.Message.Data.{routing_change, set_stream_path, Message, active_source}
use linux_cec.Cecd.Task.{
  lift, panic, failed, done, pure, Outcome, get_physical_address, State, Env, Action, ◌>>=◌, ◌>>◌,
}

-- The address that a message makes the active source.
abbrev pub chosen_source : Message → Option PhysicalAddress
chosen_source (set_stream_path address) = some address
chosen_source (active_source address) = some address
chosen_source (routing_change original new_address) = some new_address
chosen_source other = none

module _ (env : Env) where
  set_active_lem : (b : Bool) (s : State) → (set_active env b s).1.active ≡ b
  unfolding set_active announce_active
  set_active_lem b s = ground arith

  -- An answer behind it leaves the state.
  settled :
      (r : Outcome (Unit {0})) (t : State) (x : Answer)
      → (((λ (u : State). (r, t)) >> pure x) t).1 ≡ t
  settled (done u) t x = refl
  settled (failed e) t x = refl
  settled panic t x = refl

  set_active_then :
      (b : Bool) (x : Answer) (s : State) → ((set_active env b >> pure x) s).1.active ≡ b
  set_active_then b x s =
      ap (λ (t : State). t.active) (settled (set_active env b s).0 (set_active env b s).1 x)
      ∙ set_active_lem b s

  own_of : (p a own : PhysicalAddress) → some p ≡ some a → is_own p own ≡ is_own a own
  own_of p a own h = ap (λ (x : PhysicalAddress). is_own x own) (cc)

  routed :
      (b : Bool) (s : State)
      → (((if b then set_awaiting false else pure tt) >> (set_active env b >> no_answer))
          s).1.active
        ≡ b
  routed true s = set_active_then true none (record s { awaiting_wake = false })
  routed false s = set_active_then false none s

  -- The handlers ask for their own address first.
  abbrev known : (PhysicalAddress → Action Answer) → Result PhysicalAddress → State → Bool
  known f r s = ((lift r >>= f) (record s { history = get_physical_address ∷ s.history })).1.active

  -- After a message that chooses a source (SetStreamPath, ActiveSource or RoutingChange), where the
  -- device's own address can be read, the task is active exactly if the chosen address is its own,
  -- also if announcing the change fails.
  pub active_follows :
      (e : Envelope) (m : Message) (a own : PhysicalAddress) (s : State)
      → chosen_source m ≡ some a
      → env get_physical_address s.history ≡ ok own
      → (answer_valid env e m s).1.active ≡ is_own a own
  unfolding answer_valid stream_path other_active routing
  active_follows e m a own s c h =
      elim m as (λ k. chosen_source k ≡ some a → (answer_valid env e k s).1.active ≡ is_own a own) [
        | set_stream_path p ↦ λ c'.
            ap
              (λ (r : Result PhysicalAddress).
                known
                  (λ own.
                    set_active env (is_own p own)
                    >> pure (if is_own p own then some (active_source own, broadcast) else none))
                  r s)
              h
            ∙ set_active_then (is_own p own)
                (if is_own p own then some (active_source own, broadcast) else none)
                (record s { history = get_physical_address ∷ s.history })
            ∙ own_of p a own c'
        | active_source p ↦ λ c'.
            ap
              (λ (r : Result PhysicalAddress).
                known (λ own. set_active env (is_own p own) >> no_answer) r s)
              h
            ∙ set_active_then (is_own p own) none
                (record s { history = get_physical_address ∷ s.history })
            ∙ own_of p a own c'
        | routing_change o p ↦ λ c'.
            ap
              (λ (r : Result PhysicalAddress).
                known
                  (λ own.
                    (if is_own p own then set_awaiting false else pure tt)
                    >> (set_active env (is_own p own) >> no_answer))
                  r s)
              h
            ∙ routed (is_own p own) (record s { history = get_physical_address ∷ s.history })
            ∙ own_of p a own c'
        | _ ↦ λ c'. cc
      ]
        c
