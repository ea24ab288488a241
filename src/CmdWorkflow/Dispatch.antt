-- ===== src/CmdWorkflow/Dispatch.antt =====
-- HandleCmd and DispatchAsync of cmdworkflow/bus.go, with the steps that they are made of.
use eventstore.Base.{
  ℕ, ◌+◌, ◌-◌, ◌^◌, ◌%◌, Option, none, some, List, [], ◌∷◌, ◌++◌, Text, text, ok, err, map, take,
  ltb, if◌then◌else◌,
}
use eventstore.Es.Error.{Error, Result, plain}
use eventstore.Es.StreamId.{StreamId, canonical}
use eventstore.Es.Envelope.{Envelope, AppendResult}
use eventstore.Aggregate.Runtime.{HandleOption}
use eventstore.CmdWorkflow.Act.{Act, Done, ◌>>=◌, give, stop, lift, within}
use eventstore.CmdWorkflow.Codec.{
  Library, encode_append_result, decode_append_result, encode_envelopes, decode_envelopes,
}
use eventstore.CmdWorkflow.Subscriber.{
  Context, Subscriber, ExhaustedPolicy, dlq_policy, compensate_policy, drop_policy, other_policy,
}
use eventstore.CmdWorkflow.Bus.{SubscriberDlqRow, Workflow, run_retries, int_suc}

module _ {S C E J D : Type 0} (lib : Library) (fuel : ℕ) (b : Workflow S C E J D) where
  abbrev pub step_name : Context → Text → Text
  step_name ctx name = ctx.step_prefix ++ name

  -- The first id of a batch, which the code takes without a test.
  abbrev pub first_id : List Envelope → Text
  first_id [] = []
  first_id (env ∷ envs) = lib.uuid_string env.event_id

  abbrev pub state_of : Result (S × ℕ) → Result S
  state_of (err e) = err e
  state_of (ok l) = ok l.0

  -- Load in the main context.
  unfoldable pub load_state : StreamId → Act (J × D) S
  load_state sid w = some (state_of (b.runner.load sid w.1), w)

  abbrev pub handled_bytes : Result AppendResult × D → Result Text × D
  handled_bytes (err e, d) = (err e, d)
  handled_bytes (ok r, d) = (ok (encode_append_result lib r), d)

  unfoldable pub append_step : Context → StreamId → C → List HandleOption → Act (J × D) AppendResult
  append_step ctx sid cmd opts = do
    raw ←
        b.wf.run (step_name ctx (text "append"))
          (λ d. some (handled_bytes (b.runner.handle sid cmd opts d)))
    give (decode_append_result lib raw)

  -- The slice of the envelopes that the append produced; a negative bound panics.
  abbrev pub wanted : AppendResult → List Envelope → Act D Text
  wanted r envs =
      let want = (r.end_version + 2 ^ 64 - r.start_version + 1) % 2 ^ 64 in
      if ltb want (2 ^ 63) then give (ok (encode_envelopes lib (take want envs))) else stop

  abbrev pub sliced : AppendResult → Result (List Envelope) → Act D Text
  sliced r (err e) = give (err e)
  sliced r (ok envs) = wanted r envs

  unfoldable pub read_envelopes_step :
      Context → StreamId → AppendResult → Act (J × D) (List Envelope)
  read_envelopes_step ctx sid r = do
    raw ←
        b.wf.run (step_name ctx (text "read-envelopes"))
          (λ d. sliced r (b.read_stream sid ((r.start_version + 2 ^ 64 - 1) % 2 ^ 64) d) d)
    give (decode_envelopes lib raw)

  abbrev pub state_bytes : Result (S × ℕ) → Result Text
  state_bytes (err e) = err e
  state_bytes (ok l) = b.runner.encode_state l.0

  unfoldable pub read_state_step : Context → StreamId → Act (J × D) S
  read_state_step ctx sid = do
    raw ←
        b.wf.run (step_name ctx (text "read-state"))
          (λ d. some (state_bytes (b.runner.load sid d), d))
    give (b.runner.decode_state raw)

  -- The bytes of a subscriber's step: none on success, or the text of the last error.
  abbrev pub signal : Option (Result Done × D) → Option (Result Text × D)
  signal none = none
  signal (some (ok u, d)) = some (ok [], d)
  signal (some (err e, d)) = some (ok (lib.error_text e), d)

  unfoldable pub run_sync_subscriber :
      Context → List Envelope → S → List E → Subscriber S C E D → Act (J × D) Text
  run_sync_subscriber ctx envs state events sub =
      b.wf.run_async (step_name ctx (sub.name ++ text ":cmd:" ++ first_id envs))
        (λ d. signal (run_retries fuel ctx envs state events sub d))

  abbrev pub dlq_row : StreamId → List Envelope → Subscriber S C E D → Error → D → SubscriberDlqRow
  dlq_row sid [] sub last d = record {
    subscriber_name = sub.name;
    tenant_id = [];
    stream_id = canonical sid;
    event_ids = [];
    type_urls = [];
    last_error = lib.error_text last;
    attempts = int_suc sub.max_retries;
    enqueued_at = b.runner.now d;
  }
  dlq_row sid (env ∷ envs) sub last d = record {
    subscriber_name = sub.name;
    tenant_id = env.tenant_id;
    stream_id = canonical sid;
    event_ids = map (λ (e : Envelope). lib.uuid_string e.event_id) (env ∷ envs);
    type_urls = map (λ (e : Envelope). e.type_url) (env ∷ envs);
    last_error = lib.error_text last;
    attempts = int_suc sub.max_retries;
    enqueued_at = b.runner.now d;
  }

  abbrev pub inserted : Result Done × D → Option (Result Text × D)
  inserted (err e, d) = some (err e, d)
  inserted (ok u, d) = some (ok [], d)

  abbrev pub dlq_call :
      Context
      → StreamId
      → List Envelope
      → Subscriber S C E D
      → Error
      → Option (SubscriberDlqRow → D → Result Done × D)
      → Act (J × D) Done
  dlq_call ctx sid envs sub last none = give (err last)
  dlq_call ctx sid envs sub last (some insert) = do
    raw ←
        b.wf.run (step_name ctx (sub.name ++ text ":" ++ first_id envs ++ text ":dlq"))
          (λ d. inserted (insert (dlq_row sid envs sub last d) d))
    give (ok tt)

  abbrev pub compensate_call :
      (Context → StreamId → C → Act (J × D) Done)
      → Context
      → StreamId
      → List Envelope
      → S
      → List E
      → Subscriber S C E D
      → Option (Context → List Envelope → S → List E → D → Result C × D)
      → Act (J × D) Done
  compensate_call nested ctx sid envs state events sub none = give (err plain)
  compensate_call nested ctx sid envs state events sub (some f) = do
    let detached : Context = record ctx { timeout = none }
    cmd ← within (lift (f detached envs state events))
    nested
        (record detached {
          step_prefix =
              ctx.step_prefix
              ++ text "compensate:"
              ++ sub.name
              ++ text ":"
              ++ first_id envs
              ++ text ":";
        })
        sid cmd

  abbrev pub policy_call :
      (Context → StreamId → C → Act (J × D) Done)
      → Context
      → StreamId
      → List Envelope
      → S
      → List E
      → Subscriber S C E D
      → Error
      → ExhaustedPolicy
      → Act (J × D) Done
  policy_call nested ctx sid envs state events sub last drop_policy = give (ok tt)
  policy_call nested ctx sid envs state events sub last dlq_policy =
      dlq_call ctx sid envs sub last b.dlq
  policy_call nested ctx sid envs state events sub last compensate_policy =
      compensate_call nested ctx sid envs state events sub sub.compensate
  policy_call nested ctx sid envs state events sub last (other_policy n) = give (err plain)

  -- The method onExhausted; `nested` is HandleCmd without options, up to its error.
  unfoldable pub on_exhausted :
      (Context → StreamId → C → Act (J × D) Done)
      → Context
      → StreamId
      → List Envelope
      → S
      → List E
      → Subscriber S C E D
      → Error
      → Act (J × D) Done
  on_exhausted nested ctx sid envs state events sub last =
      policy_call nested ctx sid envs state events sub last sub.on_exhausted
