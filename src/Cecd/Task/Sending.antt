-- ===== src/Cecd/Task/Sending.antt =====
-- The loop that sends an answer (cecd/src/device.rs).
use linux_cec.Core.LogicalAddress.{LogicalAddress}
use linux_cec.Cecd.Task.Answer.{after_reply, send_answer, send_tries, is_retryable}
use linux_cec.Cecd.Task.{outcome, tx_message, Outcome, History, State, Env}
use linux_cec.Prelude.{
  ◌||◌, ◌==◌, Bool-cases, ◌∙◌, sym, some, arith, refl, ◌<◌, zero, ◌⊎◌, ◌≤◌, ap, inr, ◌∷◌, inl, suc,
  true, ◌≡◌, false, Bool, ℕ,
}
use linux_cec.Core.Error.{aborted, unknown_error, tx_error, Error, panicked, err, ok, Result}
use linux_cec.Message.Data.{Message}
use mathlib.Core.Bool.{not}
use mathlib.Core.Path.{subst}

-- The history behind `k` more transmissions of a message.
abbrev pub sent : ℕ → Message → LogicalAddress → History → History
sent zero m d h = h
sent (suc k) m d h = tx_message m d ∷ sent k m d h

-- What the kernel says of a transmission that is worth another.
abbrev pub IsTransient : Result (Unit {0}) → Type 0
IsTransient r = (r ≡ err (tx_error unknown_error)) ⊎ (r ≡ err (tx_error aborted))

is_retryable-IsTransient : (e : Error) → is_retryable e ≡ true → IsTransient (err e)
is_retryable-IsTransient (tx_error unknown_error) h = inl refl
is_retryable-IsTransient (tx_error aborted) h = inr refl
is_retryable-IsTransient e h = cc

abbrev tried_again : Result (Unit {0}) → Bool
tried_again (ok u) = false
tried_again (err e) = is_retryable e
tried_again panicked = false

IsTransient-tried_again : (r : Result (Unit {0})) → IsTransient r → tried_again r ≡ true
IsTransient-tried_again r (inl e) = ap tried_again e
IsTransient-tried_again r (inr e) = ap tried_again e

module _ (env : Env) (m : Message) (d : LogicalAddress) where
  sent-cons : (k : ℕ) (h : History) → sent k m d (tx_message m d ∷ h) ≡ sent (suc k) m d h
  sent-cons zero h = refl
  sent-cons (suc k) h = ap (λ (t : History). tx_message m d ∷ t) (sent-cons k h)

  -- What is answered to a transmission behind `i` others.
  abbrev pub attempt : ℕ → History → Result (Unit {0})
  attempt i h = env (tx_message m d) (sent i m d h)

  -- The loop ends with the transmission behind `k` others, the last one that it may make or the
  -- first that is not worth another, and with its result.
  abbrev pub EndsAt : ℕ → ℕ → State → Outcome (Unit {0}) × State → Type 0
  EndsAt left k s end =
      (k ≤ left)
      × ((i : ℕ) → i < k → IsTransient (attempt i s.history))
      × ((k ≡ left) ⊎ (¬ IsTransient (attempt k s.history)))
      × (end ≡ (outcome (attempt k s.history), record s { history = sent (suc k) m d s.history }))

  -- One more transmission in front.
  later :
      (left k : ℕ) (s : State) (end : Outcome (Unit {0}) × State)
      → IsTransient (attempt 0 s.history)
      → EndsAt left k (record s { history = tx_message m d ∷ s.history }) end
      → EndsAt (suc left) (suc k) s end
  later left k s end first (le, before, last, same) = (
    omega arith,
    earlier,
    elim last [
      | inl e ↦ inl (ap suc e)
      | inr stop ↦ inr (λ t. stop (subst IsTransient (sym (moved k)) t))
    ],
    same
        ∙ ap
            (λ (h : History).
              (outcome (env (tx_message m d) h), record s { history = tx_message m d ∷ h }))
            (sent-cons k s.history),
  )
    where
      moved : (i : ℕ) → attempt i (tx_message m d ∷ s.history) ≡ attempt (suc i) s.history
      moved i = ap (λ (h : History). env (tx_message m d) h) (sent-cons i s.history)

      earlier : (i : ℕ) → i < suc k → IsTransient (attempt i s.history)
      earlier zero lt = first
      earlier (suc i) lt = subst IsTransient (moved i) (before i (omega arith))

  abbrev once_more : State → State
  once_more s = record s { history = tx_message m d ∷ s.history }

  -- The first transmission is the last one.
  stopped :
      (left : ℕ) (s : State) (r : Result (Unit {0})) (end : Outcome (Unit {0}) × State)
      → r ≡ attempt 0 s.history
      → (0 ≡ left) ⊎ (tried_again r ≡ false)
      → end ≡ (outcome r, once_more s)
      → EndsAt left 0 s end
  stopped left s r end e last same = (
    omega arith,
    λ i lt. absurd (omega arith),
    elim last [
      | inl l ↦ inl l
      | inr no_more ↦
          inr (λ t.
            absurd (differs (IsTransient-tried_again r (subst IsTransient (sym e) t)) no_more))
    ],
    same ∙ ap (λ (x : Result (Unit {0})). (outcome x, once_more s)) e,
  )
    where
      differs : {b : Bool} → b ≡ true → b ≡ false → ⊥
      differs h k = cc

  -- What the rounds that are left come to.
  abbrev Rest : ℕ → State → Type 0
  Rest zero s = Unit
  Rest (suc n) s = (k : ℕ) × EndsAt n k (once_more s) (send_tries env (suc n) m d (once_more s))

  replied :
      (left : ℕ) (s : State) (r : Result (Unit {0}))
      → r ≡ attempt 0 s.history
      → Rest left s
      → (k : ℕ) × EndsAt left k s (after_reply left (send_tries env left m d) r (once_more s))
  replied left s (ok u) e rest = (0, stopped left s (ok u) _ e (inr refl) refl)
  replied left s panicked e rest = (0, stopped left s panicked _ e (inr refl) refl)
  replied zero s (err x) e rest = (0, stopped zero s (err x) _ e (inl refl) refl)
  replied (suc n) s (err x) e (k, ends) = elim (Bool-cases (is_retryable x)) [
    | inl again ↦
        let go_on : (suc n == 0 || not (is_retryable x)) ≡ false = ground (arith, again) in
        let transient = subst IsTransient e (is_retryable-IsTransient x again) in
        (suc k, rw go_on (later n k s _ transient ends))
    | inr last ↦
        let give_up : (suc n == 0 || not (is_retryable x)) ≡ true = ground (arith, last) in
        (0, stopped (suc n) s (err x) _ e (inr last) (rw give_up refl))
  ]

  send_tries-EndsAt :
      (left : ℕ) (s : State) → (k : ℕ) × EndsAt left k s (send_tries env (suc left) m d s)
  unfolding send_tries
  send_tries-EndsAt zero s = replied zero s (attempt 0 s.history) refl tt
  send_tries-EndsAt (suc left) s =
      replied (suc left) s (attempt 0 s.history) refl (send_tries-EndsAt left (once_more s))

  -- A reply is sent at least once and at most four times, each time to its address: again exactly
  -- as long as there are rounds left and the kernel has said `UnknownError` or `Aborted` of the
  -- transmission. The loop returns what was said of the last one, and nothing else of the state is
  -- changed.
  pub send_answer-EndsAt : (s : State) → (k : ℕ) × EndsAt 3 k s (send_answer env (some (m, d)) s)
  unfolding send_answer
  send_answer-EndsAt s = send_tries-EndsAt 3 s
