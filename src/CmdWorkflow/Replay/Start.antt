-- ===== src/CmdWorkflow/Replay/Start.antt =====
-- The start of the Sync subscribers in a replay of HandleCmd (cmdworkflow/bus.go).
use eventstore.Base.{
  ℕ, ◌≡◌, sym, ap, ◌∙◌, subst, Bool, true, false, Option, none, some, List, [], ◌∷◌, ◌++◌, Text,
  text, ok, arith,
}
use eventstore.Es.Error.{Result}
use eventstore.Es.StreamId.{StreamId}
use eventstore.Es.Envelope.{Envelope}
use eventstore.CmdWorkflow.Act.{Act, ◌>>=◌, carry, carry-ok, give}
use eventstore.CmdWorkflow.Codec.{Library}
use eventstore.CmdWorkflow.Subscriber.{Context, Subscriber, is_async, is_compensate}
use eventstore.CmdWorkflow.Bus.{Workflow, filter_batch, run_retries}
use eventstore.CmdWorkflow.Futures.{SyncEntry}
use eventstore.CmdWorkflow.Dispatch.{run_sync_subscriber, first_id, step_name, signal}
use eventstore.CmdWorkflow.HandleCmd.{Nested, kept, start_sync, start_mode, start_one, start_all}
use eventstore.CmdWorkflow.Durable.{Durable, Stable, bind-Stable, give-Stable}
use eventstore.CmdWorkflow.Replay.Policies.{
  AllWait, Waits, EndsOk, NoSaga, EndsOk-append, NoSaga-append,
}

module _ {S C E J D : Type 0} (lib : Library) (fuel : ℕ) (b : Workflow S C E J D) where
  abbrev entry_of : Subscriber S C E D → List Envelope → List E → Result Text → SyncEntry S C E D
  entry_of sub envs events r = record { sub = sub; envs = envs; events = events; outcome = r }

  kept-entry :
      (sub : Subscriber S C E D) (envs : List Envelope) (events : List E)
      (o : Option (Result Text × (J × D))) (one : List (SyncEntry S C E D)) (w' : J × D)
      → carry (kept lib fuel b sub envs events o) (λ entry. give (ok (entry ∷ [])))
        ≡ some (ok one, w')
      → (r : Result Text) × (o ≡ some (r, w')) × (entry_of sub envs events r ∷ [] ≡ one)
  kept-entry sub envs events none one w' h = absurd (ground arith)
  kept-entry sub envs events (some (r, w)) one w' h = (r, cc h, cc h)

module _ {S C E J D : Type 0} (lib : Library) (fuel : ℕ) (b : Workflow S C E J D)
    (dur : Durable b.wf) (nested : Nested C (J × D)) (ctx : Context) (sid : StreamId)
    (state : S) where
  start_sync-Stable :
      (sub : Subscriber S C E D) (envs : List Envelope) (events : List E)
      (one : List (SyncEntry S C E D)) (w w' : J × D)
      → start_sync lib fuel b ctx state sub envs events w ≡ some (ok one, w')
      → EndsOk one
      → is_compensate sub.on_exhausted ≡ false
      → Stable dur (start_sync lib fuel b ctx state sub envs events) one w w' × NoSaga one
  unfolding run_sync_subscriber
  start_sync-Stable sub envs events one w w' h e n =
      let name : Text =
        step_name lib fuel b ctx (sub.name ++ text ":cmd:" ++ first_id lib fuel b envs) in
      let fn : Act D Text = λ d. signal lib fuel b (run_retries fuel ctx envs state events sub d) in
      let (r, ran, is) =
        kept-entry lib fuel b sub envs events (b.wf.run_async name fn w) one w' h in
      let ran' : b.wf.run name fn w ≡ some (r, w') = sym (dur.async_same name fn w) ∙ ran in
      let ((raw, good), _) = subst EndsOk (sym is) e in
      let ran'' : b.wf.run name fn w ≡ some (ok raw, w') = ran' ∙ ap (λ z. some (z, w')) good in
      (
        record {
          extends = λ other bytes k. dur.run_keeps name other fn r bytes w w' ran' k;
          again = λ j d k.
              ap (λ o. carry (kept lib fuel b sub envs events o) (λ entry. give (ok (entry ∷ []))))
                (dur.async_same name fn (j, d)
                  ∙ dur.run_replays name fn raw j d
                      (k name raw (dur.run_journals name fn raw w w' ran'')))
              ∙ ap (λ z. some (ok (entry_of lib fuel b sub envs events z ∷ []), (j, d))) (sym good)
              ∙ ap (λ z. some (ok z, (j, d))) is;
        },
        subst NoSaga is (n, tt),
      )

  start_mode-Stable :
      (sub : Subscriber S C E D) (envs : List Envelope) (events : List E) (m : Bool)
      (one : List (SyncEntry S C E D)) (w w' : J × D)
      → m ≡ false
      → start_mode lib fuel b nested ctx sid state sub envs events m w ≡ some (ok one, w')
      → EndsOk one
      → is_compensate sub.on_exhausted ≡ false
      → Stable dur (start_mode lib fuel b nested ctx sid state sub envs events m) one w w'
        × NoSaga one
  start_mode-Stable sub envs events true one w w' m h e n = absurd (ground arith)
  start_mode-Stable sub envs events false one w w' m h e n =
      start_sync-Stable sub envs events one w w' h e n

  start_one-Stable :
      (sub : Subscriber S C E D) (batch : List Envelope × List E) (one : List (SyncEntry S C E D))
      (w w' : J × D)
      → Waits sub
      → start_one lib fuel b nested ctx sid state sub batch w ≡ some (ok one, w')
      → EndsOk one
      → Stable dur (start_one lib fuel b nested ctx sid state sub batch) one w w' × NoSaga one
  start_one-Stable sub ([], events) one w w' (m, n) h e =
      let is : [] ≡ one = cc h in (give-Stable dur (ok []) one w w' h, subst NoSaga is tt)
  start_one-Stable sub (env ∷ envs, events) one w w' (m, n) h e =
      start_mode-Stable sub (env ∷ envs) events (is_async sub.mode) one w w' m h e n

  pub start_all-Stable :
      (envs : List Envelope) (events : List E) (subs : List (Subscriber S C E D))
      (ss : List (SyncEntry S C E D)) (w w' : J × D)
      → AllWait subs
      → start_all lib fuel b nested ctx sid envs state events subs w ≡ some (ok ss, w')
      → EndsOk ss
      → Stable dur (start_all lib fuel b nested ctx sid envs state events subs) ss w w' × NoSaga ss
  unfolding start_all
  start_all-Stable envs events [] ss w w' all h e =
      let is : [] ≡ ss = cc h in (give-Stable dur (ok []) ss w w' h, subst NoSaga is tt)
  start_all-Stable envs events (sub ∷ subs) ss w w' (wait, all) h e =
      let batch = filter_batch lib.path_match sub envs events in
      let go = start_all lib fuel b nested ctx sid envs state events subs in
      let first = start_one lib fuel b nested ctx sid state sub batch in
      let (one, w₁, h₁, rest) =
        carry-ok (first w) (λ one. go >>= (λ more. give (ok (one ++ more)))) ss w' h in
      let (more, w₂, h₂, last) = carry-ok (go w₁) (λ more. give (ok (one ++ more))) ss w' rest in
      let is : one ++ more ≡ ss = cc last in
      let (e₁, e₂) = EndsOk-append one more (subst EndsOk (sym is) e) in
      let (s₁, n₁) = start_one-Stable sub batch one w w₁ wait h₁ e₁ in
      let (s₂, n₂) = start_all-Stable envs events subs more w₁ w₂ all h₂ e₂ in
      (
        bind-Stable dur first (λ one. go >>= (λ more. give (ok (one ++ more)))) one ss w w₁ w' s₁
            (bind-Stable dur go (λ more. give (ok (one ++ more))) more ss w₁ w₂ w' s₂
              (give-Stable dur (ok (one ++ more)) ss w₂ w' last)),
        subst NoSaga is (NoSaga-append one more n₁ n₂),
      )
