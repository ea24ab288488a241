-- ===== src/CmdWorkflow/Bus.antt =====
-- cmdworkflow/bus.go with runtime.go, options.go and dlq.go. A durable step acts on the second part
-- of the world alone, a child workflow on both. Subscribers that run at once are taken to end in the
-- order in which they started. Handle and Compensate of one command are nested calls on fuel, and so
-- is a subscriber that retries forever; cancellation by the caller is left out.
use eventstore.Base.{
  ℕ, zero, suc, ◌+◌, ◌-◌, ◌^◌, Bool, true, false, ◌||◌, Option, none, some, List, [], ◌∷◌, ◌++◌,
  Text, ok, err, leb, ◌==◌, if◌then◌else◌,
}
use eventstore.Es.Error.{Error, Result}
use eventstore.Es.StreamId.{StreamId}
use eventstore.Es.Envelope.{Envelope, AppendResult, Time, Uuid}
use eventstore.Aggregate.Runtime.{Codec, HandleOption, with_command_id}
use eventstore.CmdWorkflow.Act.{Act, Done, stop, lift}
use eventstore.CmdWorkflow.Codec.{Library}
use eventstore.CmdWorkflow.Subscriber.{ℤ, pos, negsuc, Context, Subscriber, matches}

-- AggregateRunner, over the world of the steps.
pub record AggregateRunner (S C D : Type 0) : Type 0 where
  pub handle : StreamId → C → List HandleOption → D → Result AppendResult × D
  pub load : StreamId → D → Result (S × ℕ)
  pub encode_state : S → Result Text
  pub decode_state : Text → Result S
  pub now : D → Time

pub record SubscriberDlqRow : Type 0 where
  pub subscriber_name : Text
  pub tenant_id : Text
  pub stream_id : Text
  pub event_ids : List Text
  pub type_urls : List Text
  pub last_error : Text
  pub attempts : ℤ
  pub enqueued_at : Time

-- WorkflowRuntime; the Future of run_async is the result that its Wait returns.
pub record WorkflowRuntime (J D : Type 0) : Type 0 where
  pub run : Text → Act D Text → Act (J × D) Text
  pub run_async : Text → Act D Text → Act (J × D) Text
  pub spawn : Text → Act (J × D) Done → Act (J × D) Done

-- The type Workflow, with the store's ReadStream. A nil dlq or async_send is none.
pub record Workflow (S C E J D : Type 0) : Type 0 where
  pub runner : AggregateRunner S C D
  pub read_stream : StreamId → ℕ → D → Result (List Envelope)
  pub wf : WorkflowRuntime J D
  pub codec : Codec E
  pub subscribers : List (Subscriber S C E D)
  pub dlq : Option (SubscriberDlqRow → D → Result Done × D)
  pub async_send : Option (Text → Text → Text → Act (J × D) Done)

-- HandleCmdOption.
pub data HandleCmdOption : Type 0 where
  with_idempotency_key : Text → HandleCmdOption
  with_aggregate_option : HandleOption → HandleCmdOption

pub record HandleCmdConfig : Type 0 where
  pub idempotency_key : Text
  pub agg_opts : List HandleOption

unfoldable pub apply_cmd_options : HandleCmdConfig → List HandleCmdOption → HandleCmdConfig
apply_cmd_options cfg [] = cfg
apply_cmd_options cfg (with_idempotency_key key ∷ os) =
    apply_cmd_options (record cfg { idempotency_key = key }) os
apply_cmd_options cfg (with_aggregate_option opt ∷ os) =
    apply_cmd_options (record cfg { agg_opts = cfg.agg_opts ++ (opt ∷ []) }) os

-- idempKeyNamespace, c0ffee00-0b05-4be7-9000-000000000000.
abbrev pub idemp_key_namespace : Uuid
idemp_key_namespace = 192 ∷ 255 ∷ 238 ∷ 0 ∷ 11 ∷ 5 ∷ 75 ∷ 231 ∷ 144 ∷ 0 ∷ 0 ∷ 0 ∷ 0 ∷ 0 ∷ 0 ∷ 0 ∷ []

-- The HandleOptions of one HandleCmd call; the key's command id comes last.
abbrev pub keyed : Library → List HandleOption → Text → List HandleOption
keyed lib opts [] = opts
keyed lib opts (b ∷ key) =
    opts ++ (with_command_id (lib.new_sha1 idemp_key_namespace (b ∷ key)) ∷ [])

unfoldable pub agg_options : Library → List HandleCmdOption → List HandleOption
unfolding apply_cmd_options
agg_options lib os =
    let cfg = apply_cmd_options (record { idempotency_key = []; agg_opts = [] }) os in
    keyed lib cfg.agg_opts cfg.idempotency_key

-- MaxRetries + 1 on a 64-bit int, and attempt <= maxAttempts.
unfoldable pub int_suc : ℤ → ℤ
int_suc (pos n) = if n + 1 == 2 ^ 63 then negsuc (2 ^ 63 - 1) else pos (n + 1)
int_suc (negsuc zero) = pos 0
int_suc (negsuc (suc n)) = negsuc n

abbrev pub at_most : ℕ → ℤ → Bool
at_most n (pos m) = leb n m
at_most n (negsuc m) = false

abbrev pub is_negative : ℤ → Bool
is_negative (pos n) = false
is_negative (negsuc n) = true

abbrev pub error_of : Result Done → Option Error
error_of (ok u) = none
error_of (err e) = some e

abbrev pub limit : ℕ → Option ℕ → Option ℕ
limit zero timeout = timeout
limit (suc n) timeout = some (suc n)

module _ {D : Type 0} where
  abbrev pub next : (Error → Act D Done) → Option (Result Done × D) → Option (Result Done × D)
  next again none = none
  next again (some (ok u, d)) = some (ok tt, d)
  next again (some (err e, d)) = again e d

  -- The loop of runRetries, from pass number `attempt` on.
  unfoldable pub retry_loop : ℕ → ℤ → Bool → Act D Done → ℕ → Result Done → Act D Done
  retry_loop zero max_attempts infinite call attempt last d = none
  retry_loop (suc fuel) max_attempts infinite call attempt last d =
      elim (infinite || at_most attempt max_attempts) [
        | true ↦
            next (λ e. retry_loop fuel max_attempts infinite call (suc attempt) (err e)) (call d)
        | false ↦ some (last, d)
      ]

module _ {S C E D : Type 0} where
  -- One call of Handle under the attempt's context.
  abbrev pub attempt_call : Context → List Envelope → S → List E → Subscriber S C E D → Act D Done
  attempt_call ctx envs state events sub = elim sub.handle [
    | none ↦ stop
    | some f ↦
        lift (f (record ctx { timeout = limit sub.attempt_timeout ctx.timeout }) envs state events)
  ]

  unfoldable pub run_retries :
      ℕ → Context → List Envelope → S → List E → Subscriber S C E D → Act D Done
  unfolding retry_loop int_suc
  run_retries fuel ctx envs state events sub =
      retry_loop fuel (int_suc sub.max_retries) (is_negative sub.max_retries)
        (attempt_call ctx envs state events sub) 1 (ok tt)

  -- The envelopes that pass the filter, with their events.
  unfoldable pub filter_batch :
      (Text → Text → Bool) → Subscriber S C E D → List Envelope → List E → List Envelope × List E
  filter_batch glob sub [] events = ([], [])
  filter_batch glob sub (env ∷ envs) [] = ([], [])
  filter_batch glob sub (env ∷ envs) (evt ∷ events) =
      let rest = filter_batch glob sub envs events in
      if matches glob sub.filter env then (env ∷ rest.0, evt ∷ rest.1) else rest
