-- ===== src/CmdWorkflow/Replay/Policies.antt =====
-- The policies of exhausted subscribers in a replay of HandleCmd (cmdworkflow/bus.go).
use eventstore.Base.{
  ℕ, ◌≡◌, subst, Bool, false, ◌||◌, Option, none, some, List, [], ◌∷◌, ◌++◌, Text, text, ok, arith,
  bind-ok,
}
use eventstore.Es.Error.{Error, Result}
use eventstore.Es.StreamId.{StreamId}
use eventstore.Es.Envelope.{Envelope}
use eventstore.CmdWorkflow.Act.{Act, Done, carry-ok}
use eventstore.CmdWorkflow.Codec.{Library}
use eventstore.CmdWorkflow.Subscriber.{
  Context, Subscriber, ExhaustedPolicy, is_async, is_compensate, dlq_policy, compensate_policy,
  drop_policy, other_policy,
}
use eventstore.CmdWorkflow.Bus.{Workflow, SubscriberDlqRow}
use eventstore.CmdWorkflow.Futures.{SyncEntry, Exhausted, wait_all, exhausted_by}
use eventstore.CmdWorkflow.Dispatch.{
  on_exhausted, first_id, step_name, dlq_row, inserted, dlq_call, policy_call,
}
use eventstore.CmdWorkflow.HandleCmd.{Nested, apply_all}
use eventstore.CmdWorkflow.Durable.{Durable, Stable, bind-Stable, give-Stable, journaled-Stable}

the_same : {A : Type 0} (x y : A) → ◌≡◌ {A = Result A} (ok x) (ok y) → x ≡ y
the_same x y h = cc

module _ {S C E D : Type 0} where
  -- The caller waits for the subscriber, and it is not compensated.
  abbrev pub Waits : Subscriber S C E D → Type 0
  Waits sub = (is_async sub.mode ≡ false) × (is_compensate sub.on_exhausted ≡ false)

  abbrev pub AllWait : List (Subscriber S C E D) → Type 0
  AllWait [] = Unit
  AllWait (sub ∷ subs) = Waits sub × AllWait subs

  abbrev pub EndsOk : List (SyncEntry S C E D) → Type 0
  EndsOk [] = Unit
  EndsOk (s ∷ ss) = ((raw : Text) × (s.outcome ≡ ok raw)) × EndsOk ss

  abbrev pub NoSaga : List (SyncEntry S C E D) → Type 0
  NoSaga [] = Unit
  NoSaga (s ∷ ss) = (is_compensate s.sub.on_exhausted ≡ false) × NoSaga ss

  abbrev pub NoSagas : List (Exhausted S C E D) → Type 0
  NoSagas [] = Unit
  NoSagas (x ∷ xs) = (is_compensate x.entry.sub.on_exhausted ≡ false) × NoSagas xs

  pub EndsOk-append : (ss bs : List (SyncEntry S C E D)) → EndsOk (ss ++ bs) → EndsOk ss × EndsOk bs
  EndsOk-append [] bs h = (tt, h)
  EndsOk-append (a ∷ ss) bs (h, hs) = let (l, r) = EndsOk-append ss bs hs in ((h, l), r)

  pub NoSaga-append : (ss bs : List (SyncEntry S C E D)) → NoSaga ss → NoSaga bs → NoSaga (ss ++ bs)
  NoSaga-append [] bs h k = k
  NoSaga-append (a ∷ ss) bs (h, hs) k = (h, NoSaga-append ss bs hs k)

  exhausted_by-NoSagas :
      (lib : Library) (s : SyncEntry S C E D) (raw : Text) (more : List (Exhausted S C E D))
      → is_compensate s.sub.on_exhausted ≡ false
      → NoSagas more
      → NoSagas (exhausted_by lib s raw more)
  exhausted_by-NoSagas lib s [] more n m = m
  exhausted_by-NoSagas lib s (c ∷ cs) more n m = (n, m)

module _ {S C E J D : Type 0} (lib : Library) (fuel : ℕ) (b : Workflow S C E J D)
    (dur : Durable b.wf) (nested : Nested C (J × D)) (ctx : Context) (sid : StreamId) where
  pub wait_all-EndsOk :
      (ss : List (SyncEntry S C E D)) (xs : List (Exhausted S C E D))
      → wait_all lib ss ≡ ok xs
      → EndsOk ss × (NoSaga ss → NoSagas xs)
  unfolding wait_all
  wait_all-EndsOk [] xs h = (tt, λ n. subst NoSagas (the_same [] xs h) tt)
  wait_all-EndsOk (s ∷ ss) xs h =
      let (raw, ended, h₁) = bind-ok s.outcome _ h in
      let (more, others, h₂) = bind-ok (wait_all lib ss) _ h₁ in
      let (e, m) = wait_all-EndsOk ss more others in
      (
        ((raw, ended), e),
        λ (n, ns).
            subst NoSagas (the_same (exhausted_by lib s raw more) xs h₂)
              (exhausted_by-NoSagas lib s raw more n (m ns)),
      )

  dlq_call-Stable :
      (envs : List Envelope) (sub : Subscriber S C E D) (last : Error)
      (o : Option (SubscriberDlqRow → D → Result Done × D)) (w w' : J × D)
      → dlq_call lib fuel b ctx sid envs sub last o w ≡ some (ok tt, w')
      → Stable dur (dlq_call lib fuel b ctx sid envs sub last o) tt w w'
  dlq_call-Stable envs sub last none w w' h = absurd (ground arith)
  dlq_call-Stable envs sub last (some insert) w w' h =
      journaled-Stable dur
        (step_name lib fuel b ctx (sub.name ++ text ":" ++ first_id lib fuel b envs ++ text ":dlq"))
        (λ d. inserted lib fuel b (insert (dlq_row lib fuel b sid envs sub last d) d))
        (λ raw. ok tt) tt w w' h

  policy_call-Stable :
      (envs : List Envelope) (state : S) (events : List E) (sub : Subscriber S C E D) (last : Error)
      (p : ExhaustedPolicy) (w w' : J × D)
      → is_compensate p ≡ false
      → policy_call lib fuel b nested ctx sid envs state events sub last p w ≡ some (ok tt, w')
      → Stable dur (policy_call lib fuel b nested ctx sid envs state events sub last p) tt w w'
  policy_call-Stable envs state events sub last drop_policy w w' n h =
      give-Stable dur (ok tt) tt w w' h
  policy_call-Stable envs state events sub last dlq_policy w w' n h =
      dlq_call-Stable envs sub last b.dlq w w' h
  policy_call-Stable envs state events sub last compensate_policy w w' n h = absurd (ground arith)
  policy_call-Stable envs state events sub last (other_policy k) w w' n h = absurd (ground arith)

  pub apply_all-Stable :
      (state : S) (flag : Bool) (xs : List (Exhausted S C E D)) (m : Bool) (w w' : J × D)
      → NoSagas xs
      → apply_all lib fuel b nested ctx sid state flag xs w ≡ some (ok m, w')
      → Stable dur (apply_all lib fuel b nested ctx sid state flag xs) m w w' × (m ≡ flag)
  unfolding apply_all on_exhausted
  apply_all-Stable state flag [] m w w' ns h = (give-Stable dur (ok flag) m w w' h, cc h)
  apply_all-Stable state flag (x ∷ xs) m w w' (n, ns) h =
      let sub = x.entry.sub in
      let rest : Done → Act (J × D) Bool = λ u.
        apply_all lib fuel b nested ctx sid state (flag || is_compensate sub.on_exhausted) xs in
      let first =
        policy_call lib fuel b nested ctx sid x.entry.envs state x.entry.events sub x.error
          sub.on_exhausted in
      let (u, w₁, one, more) = carry-ok (first w) rest m w' h in
      let (s, same) =
        apply_all-Stable state (flag || is_compensate sub.on_exhausted) xs m w₁ w' ns more in
      (
        bind-Stable dur first rest u m w w₁ w'
            (policy_call-Stable x.entry.envs state x.entry.events sub x.error sub.on_exhausted w w₁
              n one)
            s,
        ground arith,
      )
