-- ===== src/Dispatcher/Moves.antt =====
-- What an atomic step did, by its result.
use bits_broker.Prelude.{
  ok_injective, ℕ, suc, ◌-◌, ◌==◌, ltb, true, false, none, some, [], ok, err, Text, text, text_eq,
  lookup, insert, remove, Bool-cases, Option-cases, ◌≡◌, refl, sym, ap, ◌∙◌, inl, inr, arith,
}
use bits_broker.Actions.{queue_full}
use bits_broker.Dispatcher.{
  PendingItem, Dispatch, dispatcher_closed, new_dispatcher, acquire_permit, release_permit,
  insert_pending, enqueue_job, take_pending,
}

module _ {Work : Type 0} where
  acquired :
      (d : Dispatch Work)
      → d.admission_open ≡ true
      → (d.admission == 0) ≡ false
      → acquire_permit d ≡ ok (record d { admission = d.admission - 1 })
  unfolding acquire_permit
  acquired d o z = simp (acquire_permit, o, z)

  exhausted :
      (d : Dispatch Work)
      → d.admission_open ≡ true
      → (d.admission == 0) ≡ true
      → acquire_permit d ≡ err (queue_full (text "dispatcher queue is full"))
  unfolding acquire_permit
  exhausted d o z = simp (acquire_permit, o, z)

  shut : (d : Dispatch Work) → d.admission_open ≡ false → acquire_permit d ≡ err dispatcher_closed
  unfolding acquire_permit
  shut d o = simp (acquire_permit, o)

  pub acquire_permit-ok :
      (d d' : Dispatch Work)
      → acquire_permit d ≡ ok d'
      → (suc d'.admission ≡ d.admission) × (d'.pending ≡ d.pending) × (d'.closing ≡ d.closing)
  acquire_permit-ok d d' h = elim (Bool-cases d.admission_open) [
    | inr o ↦ cc (shut d o)
    | inl o ↦ elim (Bool-cases (d.admission == 0)) [
      | inl z ↦ cc (exhausted d o z)
      | inr z ↦
          let e = ok_injective (sym (acquired d o z) ∙ h) in rw (sym e) (ground arith, refl, refl)
    ]
  ]

  entered :
      (id : Text) (item : PendingItem Work) (d : Dispatch Work)
      → d.closing ≡ false
      → insert_pending id item d ≡ (true, record d { pending = insert id item d.pending })
  unfolding insert_pending
  entered id item d c = simp (insert_pending, c)

  refused :
      (id : Text) (item : PendingItem Work) (d : Dispatch Work)
      → d.closing ≡ true
      → insert_pending id item d ≡ (false, release_permit d)
  unfolding insert_pending
  refused id item d c = simp (insert_pending, c)

  pub insert_pending-true :
      (id : Text) (item : PendingItem Work) (d d' : Dispatch Work)
      → insert_pending id item d ≡ (true, d')
      → (d.closing ≡ false) × (d' ≡ record d { pending = insert id item d.pending })
  insert_pending-true id item d d' h = elim (Bool-cases d.closing) [
    | inl c ↦ cc (refused id item d c)
    | inr c ↦ (c, sym (ap (λ p. p.1) (sym (entered id item d c) ∙ h)))
  ]

  pub insert_pending-false :
      (id : Text) (item : PendingItem Work) (d d' : Dispatch Work)
      → insert_pending id item d ≡ (false, d')
      → d' ≡ release_permit d
  insert_pending-false id item d d' h = elim (Bool-cases d.closing) [
    | inl c ↦ sym (ap (λ p. p.1) (sym (refused id item d c) ∙ h))
    | inr c ↦ cc (entered id item d c)
  ]

  took :
      (id : Text) (d : Dispatch Work) (item : PendingItem Work)
      → lookup id d.pending ≡ some item
      → take_pending id d ≡ (some item, release_permit (record d { pending = remove id d.pending }))
  unfolding take_pending
  took id d item e = simp (take_pending, e)

  missed :
      (id : Text) (d : Dispatch Work) → lookup id d.pending ≡ none → take_pending id d ≡ (none, d)
  unfolding take_pending
  missed id d e = simp (take_pending, e)

  pub take_pending-some :
      (id : Text) (d d' : Dispatch Work) (item : PendingItem Work)
      → take_pending id d ≡ (some item, d')
      → (lookup id d.pending ≡ some item)
        × (d' ≡ release_permit (record d { pending = remove id d.pending }))
  take_pending-some id d d' item h = elim (Option-cases (lookup id d.pending)) [
    | inl e ↦ cc (missed id d e)
    | inr (old, e) ↦
        let same = sym (took id d old e) ∙ h in (e ∙ ap (λ p. p.0) same, sym (ap (λ p. p.1) same))
  ]

  pub enqueue_job-keeps :
      (id : Text) (d : Dispatch Work)
      → ((enqueue_job id d).pending ≡ d.pending)
        × ((enqueue_job id d).admission ≡ d.admission)
        × ((enqueue_job id d).closing ≡ d.closing)
  unfolding enqueue_job
  enqueue_job-keeps id d = elim (Bool-cases d.queue_open) [
    | inl o ↦ rw (enqueue_job, o) (refl, refl, refl)
    | inr o ↦ rw (enqueue_job, o) (refl, refl, refl)
  ]

  pub new_dispatcher-ok :
      (max_permits n : ℕ) (d : Dispatch Work)
      → new_dispatcher max_permits n ≡ ok d
      → (d.pending ≡ []) × (d.admission ≡ n)
  unfolding new_dispatcher
  new_dispatcher-ok max_permits n d h = elim (Bool-cases (n == 0)) [
    | inl z ↦ cc (simp (new_dispatcher, z) at h)
    | inr z ↦ elim (Bool-cases (ltb max_permits n)) [
      | inl large ↦ cc (simp (new_dispatcher, z, large) at h)
      | inr fits ↦ rw (ok_injective (sym (simp (new_dispatcher, z, fits) at h))) (refl, refl)
    ]
  ]
