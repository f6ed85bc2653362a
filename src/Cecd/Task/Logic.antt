-- ===== src/Cecd/Task/Logic.antt =====
-- What a method of the task keeps, however it ends: the rules for the actions.
use linux_cec.Cecd.Task.Wake.{ignore}
use linux_cec.Prelude.{false, true, ◌∷◌, if◌then◌else◌, Bool}
use linux_cec.Cecd.Task.{
  panic, perform, failed, done, finish, Call, gets, Outcome, modify, Env, pure, State, Action,
  ◌>>=◌,
}

module _ (P : State → Type 0) where
  abbrev pub Keeps : {A : Type 0} → Action A → Type 0
  Keeps m = (s : State) → P s → P (m s).1

  pub pure-Keeps : {A : Type 0} (a : A) → Keeps (pure a)
  pure-Keeps a s h = h

  pub finish-Keeps : {A : Type 0} (r : Outcome A) → Keeps (finish r)
  finish-Keeps r s h = h

  pub gets-Keeps : {A : Type 0} (f : State → A) → Keeps (gets f)
  gets-Keeps f s h = h

  pub modify-Keeps : (f : State → State) → ((s : State) → P s → P (f s)) → Keeps (modify f)
  modify-Keeps f k s h = k s h

  -- A call is kept if writing it to the history is.
  pub perform-Keeps :
      (env : Env) (c : Call)
      → ((s : State) → P s → P (record s { history = c ∷ s.history }))
      → Keeps (perform env c)
  perform-Keeps env c k s h = k s h

  after :
      {A B : Type 0} (f : A → Action B) (r : Outcome A) (s : State)
      → ((a : A) → Keeps (f a))
      → P s
      → P (((λ (t : State). (r, t)) >>= f) s).1
  after f (done a) s k h = k a s h
  after f (failed e) s k h = h
  after f panic s k h = h

  pub >>=-Keeps :
      {A B : Type 0} (m : Action A) (f : A → Action B)
      → Keeps m
      → ((a : A) → Keeps (f a))
      → Keeps (m >>= f)
  >>=-Keeps m f h k s p = after f (m s).0 (m s).1 k (h s p)

  pub if-Keeps :
      {A : Type 0} (b : Bool) (m n : Action A) → Keeps m → Keeps n → Keeps (if b then m else n)
  if-Keeps true m n h k = h
  if-Keeps false m n h k = k

  pub ignore-Keeps : (m : Action (Unit {0})) → Keeps m → Keeps (ignore m)
  ignore-Keeps m h s p = ignored (m s).0 (m s).1 (h s p)
    where
      ignored : (r : Outcome (Unit {0})) (t : State) → P t → P (ignore (λ (u : State). (r, t)) s).1
      ignored (done u) t q = q
      ignored (failed e) t q = q
      ignored panic t q = q
