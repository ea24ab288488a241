-- ===== src/CmdWorkflow/HandleCmd.antt =====
-- HandleCmd, spawnAsync and DispatchAsync of cmdworkflow/bus.go.
use eventstore.Base.{
  ℕ, zero, suc, Bool, true, false, ◌&&◌, ◌||◌, Option, none, some, List, [], ◌∷◌, ◌++◌, Text, text,
  ok, err, text_eq, ◌==◌, if◌then◌else◌,
}
use eventstore.Es.Error.{Error, Result, plain}
use eventstore.Es.StreamId.{StreamId}
use eventstore.Es.Envelope.{Envelope, AppendResult}
use eventstore.CmdWorkflow.Act.{Act, Done, ◌>>=◌, give, stop}
use eventstore.CmdWorkflow.Codec.{Library, encode_envelopes, decode_envelopes, decode_events}
use eventstore.CmdWorkflow.Subscriber.{Context, Subscriber, is_async, is_compensate}
use eventstore.CmdWorkflow.Bus.{Workflow, HandleCmdOption, agg_options, run_retries, filter_batch}
use eventstore.CmdWorkflow.Futures.{SyncEntry, Exhausted, wait_all}
use eventstore.CmdWorkflow.Dispatch.{
  append_step, read_envelopes_step, read_state_step, load_state, run_sync_subscriber, on_exhausted,
  first_id,
}

-- A HandleCmd without options, with its error only.
abbrev pub Nested : Type 0 → Type 0 → Type 0
Nested C W = Context → StreamId → C → Act W Done

module _ {S C E J D : Type 0} (lib : Library) (fuel : ℕ) (b : Workflow S C E J D) where
  -- The rest of a dispatch once its retries have ended.
  abbrev pub policy :
      (Error → Act (J × D) Done) → J → Option (Result Done × D) → Option (Result Done × (J × D))
  policy exhausted j none = none
  policy exhausted j (some (ok u, d)) = some (ok tt, (j, d))
  policy exhausted j (some (err e, d)) = exhausted e (j, d)

  -- The child of spawnAsync, and the end of DispatchAsync.
  unfoldable pub deliver :
      Nested C (J × D)
      → Context
      → StreamId
      → List Envelope
      → List E
      → S
      → Subscriber S C E D
      → Act (J × D) Done
  deliver nested ctx sid envs events state sub w =
      policy (on_exhausted lib fuel b nested ctx sid envs state events sub) w.0
        (run_retries fuel ctx envs state events sub w.1)

  abbrev pub child :
      Nested C (J × D) → Context → StreamId → List Envelope → Subscriber S C E D → Act (J × D) Done
  child nested ctx sid envs sub = do
    events ← give (decode_events b.codec envs)
    state ← load_state lib fuel b sid
    deliver nested ctx sid envs events state sub

  unfoldable pub spawn_async :
      Nested C (J × D) → Context → StreamId → List Envelope → Subscriber S C E D → Act (J × D) Done
  spawn_async nested ctx sid envs sub = elim b.async_send [
    | some send ↦
        send sub.name (encode_envelopes lib envs)
          (sid.typ ++ text ":" ++ sub.name ++ text ":" ++ first_id lib fuel b envs)
    | none ↦
        b.wf.spawn (sub.name ++ text ":" ++ first_id lib fuel b envs)
          (child nested ctx sid envs sub)
  ]

  -- A future that was started, with its result kept for its Wait.
  abbrev pub kept :
      Subscriber S C E D
      → List Envelope
      → List E
      → Option (Result Text × (J × D))
      → Option (Result (SyncEntry S C E D) × (J × D))
  kept sub envs events none = none
  kept sub envs events (some (r, w)) =
      some (ok (record { sub = sub; envs = envs; events = events; outcome = r }), w)

  abbrev pub start_sync :
      Context
      → S
      → Subscriber S C E D
      → List Envelope
      → List E
      → Act (J × D) (List (SyncEntry S C E D))
  start_sync ctx state sub envs events = do
    entry ← (λ w. kept sub envs events (run_sync_subscriber lib fuel b ctx envs state events sub w))
    give (ok (entry ∷ []))

  abbrev pub start_mode :
      Nested C (J × D)
      → Context
      → StreamId
      → S
      → Subscriber S C E D
      → List Envelope
      → List E
      → Bool
      → Act (J × D) (List (SyncEntry S C E D))
  start_mode nested ctx sid state sub envs events true = do
    u ← spawn_async nested ctx sid envs sub
    give (ok [])
  start_mode nested ctx sid state sub envs events false = start_sync ctx state sub envs events

  -- One pass of the fan-out over the subscribers.
  abbrev pub start_one :
      Nested C (J × D)
      → Context
      → StreamId
      → S
      → Subscriber S C E D
      → List Envelope × List E
      → Act (J × D) (List (SyncEntry S C E D))
  start_one nested ctx sid state sub ([], events) = give (ok [])
  start_one nested ctx sid state sub (env ∷ envs, events) =
      start_mode nested ctx sid state sub (env ∷ envs) events (is_async sub.mode)

  unfoldable pub start_all :
      Nested C (J × D)
      → Context
      → StreamId
      → List Envelope
      → S
      → List E
      → List (Subscriber S C E D)
      → Act (J × D) (List (SyncEntry S C E D))
  start_all nested ctx sid envs state events [] = give (ok [])
  start_all nested ctx sid envs state events (sub ∷ subs) = do
    one ← start_one nested ctx sid state sub (filter_batch lib.path_match sub envs events)
    more ← start_all nested ctx sid envs state events subs
    give (ok (one ++ more))

  -- The loop that applies the policies; it returns `mutated`.
  unfoldable pub apply_all :
      Nested C (J × D) → Context → StreamId → S → Bool → List (Exhausted S C E D) → Act (J × D) Bool
  apply_all nested ctx sid state mutated [] = give (ok mutated)
  apply_all nested ctx sid state mutated (x ∷ xs) = do
    u ← on_exhausted lib fuel b nested ctx sid x.entry.envs state x.entry.events x.entry.sub x.error
    apply_all nested ctx sid state (mutated || is_compensate x.entry.sub.on_exhausted) xs

  abbrev pub final_state : StreamId → S → Bool → Act (J × D) S
  final_state sid state true = load_state lib fuel b sid
  final_state sid state false = give (ok state)

  -- HandleCmd from the read-back on.
  unfoldable pub fan_out : Nested C (J × D) → Context → StreamId → AppendResult → Act (J × D) S
  fan_out nested ctx sid r = do
    envs ← read_envelopes_step lib fuel b ctx sid r
    state ← read_state_step lib fuel b ctx sid
    events ← give (decode_events b.codec envs)
    syncs ← start_all nested ctx sid envs state events b.subscribers
    to_apply ← give (wait_all lib syncs)
    mutated ← apply_all nested ctx sid state false to_apply
    final_state sid state mutated

  -- HandleCmd after the append; a command without events goes no further.
  abbrev pub after_append :
      Nested C (J × D) → Context → StreamId → AppendResult → Bool → Act (J × D) S
  after_append nested ctx sid r true = load_state lib fuel b sid
  after_append nested ctx sid r false = fan_out nested ctx sid r

  unfoldable pub handle_once :
      Nested C (J × D) → Context → StreamId → C → List HandleCmdOption → Act (J × D) S
  handle_once nested ctx sid cmd opts = do
    r ← append_step lib fuel b ctx sid cmd (agg_options lib opts)
    after_append nested ctx sid r (r.start_version == 0 && r.end_version == 0)

  -- HandleCmd as Compensate calls it, up to `depth` calls deep.
  unfoldable pub nested_cmd : ℕ → Nested C (J × D)
  nested_cmd zero ctx sid cmd = stop
  nested_cmd (suc depth) ctx sid cmd = do
    state ← handle_once (nested_cmd depth) ctx sid cmd []
    give (ok tt)

  -- The method HandleCmd.
  unfoldable pub handle_cmd : ℕ → Context → StreamId → C → List HandleCmdOption → Act (J × D) S
  unfolding nested_cmd handle_once
  handle_cmd depth = handle_once (nested_cmd depth)

  unfoldable pub find_subscriber : Text → List (Subscriber S C E D) → Option (Subscriber S C E D)
  find_subscriber name [] = none
  find_subscriber name (s ∷ subs) =
      if text_eq s.name name then some s else find_subscriber name subs

  abbrev stream_of : List Envelope → Act (J × D) StreamId
  stream_of [] = give (err plain)
  stream_of (env ∷ envs) = give (ok env.stream_id)

  -- The method DispatchAsync.
  unfoldable pub dispatch_async : ℕ → Context → Text → Text → Act (J × D) Done
  unfolding find_subscriber nested_cmd deliver
  dispatch_async depth ctx subscriber_name env_bytes =
      elim (find_subscriber subscriber_name b.subscribers) [
        | none ↦ give (err plain)
        | some sub ↦ do
          envs ← give (decode_envelopes lib env_bytes)
          sid ← stream_of envs
          events ← give (decode_events b.codec envs)
          state ← load_state lib fuel b sid
          deliver (nested_cmd depth) ctx sid envs events state sub
      ]
