-- ===== src/CmdWorkflow/Replay/Whole.antt =====
-- A whole HandleCmd of cmdworkflow/bus.go, replayed on a durable engine.
use eventstore.Base.{ℕ, ◌+◌, ◌-◌, ◌^◌, ◌%◌, ◌≡◌, Bool, true, false, some, List, text, ok, arith}
use eventstore.Es.StreamId.{StreamId}
use eventstore.Es.Envelope.{Envelope, AppendResult}
use eventstore.Aggregate.Runtime.{HandleOption}
use eventstore.CmdWorkflow.Act.{Act, ◌>>=◌, carry-ok, give}
use eventstore.CmdWorkflow.Codec.{Library, decode_append_result, decode_envelopes, decode_events}
use eventstore.CmdWorkflow.Subscriber.{Context}
use eventstore.CmdWorkflow.Bus.{Workflow}
use eventstore.CmdWorkflow.Futures.{SyncEntry, Exhausted, wait_all}
use eventstore.CmdWorkflow.Dispatch.{
  append_step, read_envelopes_step, read_state_step, step_name, handled_bytes, sliced, state_bytes,
}
use eventstore.CmdWorkflow.HandleCmd.{Nested, start_all, apply_all, final_state, fan_out}
use eventstore.CmdWorkflow.Durable.{Durable, Stable, bind-Stable, give-Stable, journaled-Stable}
use eventstore.CmdWorkflow.Replay.Policies.{AllWait, NoSagas, wait_all-EndsOk, apply_all-Stable}
use eventstore.CmdWorkflow.Replay.Start.{start_all-Stable}

module _ {S C E J D : Type 0} (lib : Library) (fuel : ℕ) (b : Workflow S C E J D)
    (dur : Durable b.wf) (nested : Nested C (J × D)) (ctx : Context) (sid : StreamId)
    (all : AllWait b.subscribers) where
  pub append_step-Stable :
      (cmd : C) (opts : List HandleOption) (r : AppendResult) (w w' : J × D)
      → append_step lib fuel b ctx sid cmd opts w ≡ some (ok r, w')
      → Stable dur (append_step lib fuel b ctx sid cmd opts) r w w'
  unfolding append_step
  append_step-Stable cmd opts r w w' h =
      journaled-Stable dur (step_name lib fuel b ctx (text "append"))
        (λ d. some (handled_bytes lib fuel b (b.runner.handle sid cmd opts d)))
        (decode_append_result lib) r w w' h

  read_envelopes_step-Stable :
      (r : AppendResult) (envs : List Envelope) (w w' : J × D)
      → read_envelopes_step lib fuel b ctx sid r w ≡ some (ok envs, w')
      → Stable dur (read_envelopes_step lib fuel b ctx sid r) envs w w'
  unfolding read_envelopes_step
  read_envelopes_step-Stable r envs w w' h =
      journaled-Stable dur (step_name lib fuel b ctx (text "read-envelopes"))
        (λ d. sliced lib fuel b r (b.read_stream sid ((r.start_version + 2 ^ 64 - 1) % 2 ^ 64) d) d)
        (decode_envelopes lib) envs w w' h

  read_state_step-Stable :
      (state : S) (w w' : J × D)
      → read_state_step lib fuel b ctx sid w ≡ some (ok state, w')
      → Stable dur (read_state_step lib fuel b ctx sid) state w w'
  unfolding read_state_step
  read_state_step-Stable state w w' h =
      journaled-Stable dur (step_name lib fuel b ctx (text "read-state"))
        (λ d. some (state_bytes lib fuel b (b.runner.load sid d), d)) b.runner.decode_state state w
        w' h

  final_state-Stable :
      (state s : S) (m : Bool) (w w' : J × D)
      → m ≡ false
      → final_state lib fuel b sid state m w ≡ some (ok s, w')
      → Stable dur (final_state lib fuel b sid state m) s w w'
  final_state-Stable state s true w w' m h = absurd (ground arith)
  final_state-Stable state s false w w' m h = give-Stable dur (ok state) s w w' h

  -- The parts of HandleCmd, from the last to the first.
  abbrev settle : S → List (Exhausted S C E D) → Act (J × D) S
  settle state xs =
      apply_all lib fuel b nested ctx sid state false xs >>= final_state lib fuel b sid state

  abbrev await : S → List (SyncEntry S C E D) → Act (J × D) S
  await state ss = give (wait_all lib ss) >>= settle state

  abbrev start : List Envelope → S → List E → Act (J × D) S
  start envs state events =
      start_all lib fuel b nested ctx sid envs state events b.subscribers >>= await state

  abbrev decode : List Envelope → S → Act (J × D) S
  decode envs state = give (decode_events b.codec envs) >>= start envs state

  abbrev read_state : List Envelope → Act (J × D) S
  read_state envs = read_state_step lib fuel b ctx sid >>= decode envs

  settle-Stable :
      (state s : S) (xs : List (Exhausted S C E D)) (w w' : J × D)
      → NoSagas xs
      → settle state xs w ≡ some (ok s, w')
      → Stable dur (settle state xs) s w w'
  settle-Stable state s xs w w' n h =
      let go = apply_all lib fuel b nested ctx sid state false xs in
      let (m, w₁, one, rest) = carry-ok (go w) (final_state lib fuel b sid state) s w' h in
      let (stable, quiet) =
        apply_all-Stable lib fuel b dur nested ctx sid state false xs m w w₁ n one in
      bind-Stable dur go (final_state lib fuel b sid state) m s w w₁ w' stable
        (final_state-Stable state s m w₁ w' quiet rest)

  start-Stable :
      (envs : List Envelope) (state s : S) (events : List E) (w w' : J × D)
      → start envs state events w ≡ some (ok s, w')
      → Stable dur (start envs state events) s w w'
  start-Stable envs state s events w w' h =
      let go = start_all lib fuel b nested ctx sid envs state events b.subscribers in
      let (ss, w₁, one, rest) = carry-ok (go w) (await state) s w' h in
      let (xs, w₂, waited, last) = carry-ok (give (wait_all lib ss) w₁) (settle state) s w' rest in
      let done : wait_all lib ss ≡ ok xs = cc waited in
      let (ends, sagas) = wait_all-EndsOk lib fuel b dur nested ctx sid ss xs done in
      let (stable, quiet) =
        start_all-Stable lib fuel b dur nested ctx sid state envs events b.subscribers ss w w₁ all
          one ends in
      bind-Stable dur go (await state) ss s w w₁ w' stable (
        bind-Stable dur (give (wait_all lib ss)) (settle state) xs s w₁ w₂ w'
          (give-Stable dur (wait_all lib ss) xs w₁ w₂ waited)
          (settle-Stable state s xs w₂ w' (sagas quiet) last))

  decode-Stable :
      (envs : List Envelope) (state s : S) (w w' : J × D)
      → decode envs state w ≡ some (ok s, w')
      → Stable dur (decode envs state) s w w'
  decode-Stable envs state s w w' h =
      let go : Act (J × D) (List E) = give (decode_events b.codec envs) in
      let (events, w₁, one, rest) = carry-ok (go w) (start envs state) s w' h in
      bind-Stable dur go (start envs state) events s w w₁ w'
        (give-Stable dur (decode_events b.codec envs) events w w₁ one)
        (start-Stable envs state s events w₁ w' rest)

  read_state-Stable :
      (envs : List Envelope) (s : S) (w w' : J × D)
      → read_state envs w ≡ some (ok s, w')
      → Stable dur (read_state envs) s w w'
  read_state-Stable envs s w w' h =
      let go = read_state_step lib fuel b ctx sid in
      let (state, w₁, one, rest) = carry-ok (go w) (decode envs) s w' h in
      bind-Stable dur go (decode envs) state s w w₁ w' (read_state_step-Stable state w w₁ one)
        (decode-Stable envs state s w₁ w' rest)

  pub fan_out-Stable :
      (r : AppendResult) (s : S) (w w' : J × D)
      → fan_out lib fuel b nested ctx sid r w ≡ some (ok s, w')
      → Stable dur (fan_out lib fuel b nested ctx sid r) s w w'
  unfolding fan_out
  fan_out-Stable r s w w' h =
      let go = read_envelopes_step lib fuel b ctx sid r in
      let (envs, w₁, one, rest) = carry-ok (go w) read_state s w' h in
      bind-Stable dur go read_state envs s w w₁ w' (read_envelopes_step-Stable r envs w w₁ one)
        (read_state-Stable envs s w₁ w' rest)
