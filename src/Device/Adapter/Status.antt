-- ===== src/Device/Adapter/Status.antt =====
-- What `handle_status` reports, and which addresses it leaves (linux-cec/src/device.rs).
use linux_cec.Device.Envelope.{Envelope, envelope_try_from}
use linux_cec.Prelude.{
  append-nil, ◌⊎◌, ◌||◌, ◌++◌, ltb, sym, inr, inl, ◌∙◌, false, Bool-cases, Bool, refl, true, [],
  ◌∷◌, ◌==◌, arith, if◌then◌else◌, length, ◌≡◌, List,
}
use linux_cec.Device.Adapter.{
  with_message, got_message_only, state_change, pin_event, got_event_only, lost_messages, destroyed,
  refreshed, after_event, nothing, message, PollResult, PollStatus, event_result, got_all,
  first_address, LogAddrs, CecEvent, Adapter, Kernel, handle_status,
}
use linux_cec.Core.Error.{>>=-eq-ok, ok-injective, Result, err, panicked, ok, ◌>>=◌}
use linux_cec.Core.LogicalAddress.{unregistered_or_broadcast}

-- The result of a message that is read.
abbrev pub Delivered : Kernel → List PollResult → Type 0
Delivered kernel messages =
    (e : Envelope) × ((kernel.receive 1 >>= envelope_try_from) ≡ ok e) × (messages ≡ message e ∷ [])

abbrev pub is_change : PollResult → Bool
is_change state_change = true
is_change (message e) = false
is_change (lost_messages n) = false
is_change (pin_event e) = false

abbrev pub has_change : List PollResult → Bool
has_change [] = false
has_change (x ∷ xs) = is_change x || has_change xs

-- The result of an event that is taken, a change of state exactly if the event is one.
abbrev pub Dequeued : Kernel → List PollResult → Type 0
Dequeued kernel events =
    (ev : CecEvent) × (kernel.dequeue_event ≡ ok ev)
    × (length events ≡ 1)
    × (has_change events ≡ (ev.event == 1))

-- One result for the event and for the message that a status announces, and none else.
abbrev pub Reports : Kernel → PollStatus → List PollResult → List PollResult → Type 0
Reports kernel nothing events messages = (events ≡ []) × (messages ≡ [])
Reports kernel destroyed events messages = (events ≡ []) × (messages ≡ [])
Reports kernel got_event_only events messages = Dequeued kernel events × (messages ≡ [])
Reports kernel got_message_only events messages = (events ≡ []) × Delivered kernel messages
Reports kernel got_all events messages = Dequeued kernel events × Delivered kernel messages

-- The addresses are those of the kernel if a change of state is reported, and else as before.
abbrev pub Follows : Kernel → Adapter → List PollResult → Adapter → Type 0
Follows kernel a results b =
    ((has_change results ≡ true)
      × (kernel.get_log_addrs ≡ ok b.internal_log_addrs)
      × (b.tx_logical_address ≡ (
          if ltb 0 b.internal_log_addrs.num_log_addrs
          then first_address b.internal_log_addrs
          else unregistered_or_broadcast)))
    ⊎ ((has_change results ≡ false) × (b ≡ a))

event_result_other : (ev : CecEvent) (x : PollResult) → event_result ev ≡ ok x → is_change x ≡ false
unfolding event_result
event_result_other ev x h = ground arith

module _ (kernel : Kernel) where
  refreshed-Follows :
      (a : Adapter) (answer : Result LogAddrs) (results : List PollResult)
      → kernel.get_log_addrs ≡ answer
      → (refreshed a answer).0 ≡ ok results
      → (length results ≡ 1)
        × (has_change results ≡ true)
        × Follows kernel a results (refreshed a answer).1
  refreshed-Follows a (ok addrs) results k h =
      rw (sym (ok-injective h)) (refl, refl, inl (refl, k, refl))
  refreshed-Follows a (err e) results k h = cc
  refreshed-Follows a panicked results k h = cc

  one_result :
      (a : Adapter) (r : Result PollResult) (results : List PollResult)
      → ((x : PollResult) → r ≡ ok x → is_change x ≡ false)
      → (r >>= λ result. ok (result ∷ [])) ≡ ok results
      → (length results ≡ 1) × (has_change results ≡ false) × Follows kernel a results a
  one_result a (ok x) results other h =
      rw (sym (ok-injective h)) (refl, rw (other x refl) refl, inr (rw (other x refl) refl, refl))
  one_result a (err e) results other h = cc
  one_result a panicked results other h = cc

  after_event-Follows :
      (a : Adapter) (r : Result CecEvent) (results : List PollResult)
      → kernel.dequeue_event ≡ r
      → (after_event kernel a r).0 ≡ ok results
      → Dequeued kernel results × Follows kernel a results (after_event kernel a r).1
  after_event-Follows a (ok ev) results d h = elim (Bool-cases (ev.event == 1)) [
    | inl change ↦
        let (one, changed, follows) =
          refreshed-Follows a kernel.get_log_addrs results refl (rw change at h) in
        ((ev, d, one, changed ∙ sym change), rw change follows)
    | inr other ↦
        let (one, same, follows) =
          one_result a (event_result ev) results (event_result_other ev) (rw other at h) in
        ((ev, d, one, same ∙ sym other), rw other follows)
  ]
  after_event-Follows a (err e) results d h = cc
  after_event-Follows a panicked results d h = cc

  delivered :
      (before results : List PollResult) (r : Result Envelope)
      → (kernel.receive 1 >>= envelope_try_from) ≡ r
      → (r >>= λ e. ok (before ++ (message e ∷ []))) ≡ ok results
      → (messages : List PollResult) × (results ≡ before ++ messages) × Delivered kernel messages
  delivered before results (ok e) k h = (message e ∷ [], sym (ok-injective h), (e, k, refl))
  delivered before results (err e) k h = cc
  delivered before results panicked k h = cc

  -- If a status is handled without an error, the results are one for the event that is taken, if
  -- the status announces one, and then the message that the kernel gives, if the status announces
  -- one, and none else. The result for the event is a change of state exactly if the event has that
  -- number. If the result for the event is a change of state, the addresses are those of the kernel
  -- and the device sends from the first of them, or as unregistered without any; otherwise the
  -- device is as before.
  pub handle_status_lem :
      (status : PollStatus) (a : Adapter) (results : List PollResult)
      → (handle_status kernel status a).0 ≡ ok results
      → (events : List PollResult) × (messages : List PollResult) × (results ≡ events ++ messages)
        × Reports kernel status events messages
        × Follows kernel a events (handle_status kernel status a).1
  unfolding handle_status
  handle_status_lem nothing a results h =
      ([], [], sym (ok-injective h), (refl, refl), inr (refl, refl))
  handle_status_lem destroyed a results h =
      ([], [], sym (ok-injective h), (refl, refl), inr (refl, refl))
  handle_status_lem got_event_only a results h =
      let (events, read, finished) =
        >>=-eq-ok (after_event kernel a kernel.dequeue_event).0 (with_message kernel got_event_only)
          h in
      let (one, follows) = after_event-Follows a kernel.dequeue_event events refl read in
      (events, [], sym (append-nil events ∙ ok-injective finished), (one, refl), follows)
  handle_status_lem got_message_only a results h =
      let (messages, joined, d) =
        delivered [] results (kernel.receive 1 >>= envelope_try_from) refl h in
      ([], messages, joined, (refl, d), inr (refl, refl))
  handle_status_lem got_all a results h =
      let (events, read, rest) =
        >>=-eq-ok (after_event kernel a kernel.dequeue_event).0 (with_message kernel got_all) h in
      let (one, follows) = after_event-Follows a kernel.dequeue_event events refl read in
      let (messages, joined, d) =
        delivered events results (kernel.receive 1 >>= envelope_try_from) refl rest in
      (events, messages, joined, (one, d), follows)
