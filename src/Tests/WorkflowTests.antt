-- ===== src/Tests/WorkflowTests.antt =====
-- cmdworkflow/: a bus over a counter of appends, with a subscriber that always fails.
use eventstore.Base.{
  ℕ, suc, ◌≡◌, refl, true, ◌⊎◌, none, some, Text, text, text_eq, any_row, List, [], ◌∷◌, ◌++◌, map,
  ok, err, arith, ◌==◌, if◌then◌else◌,
}
use eventstore.Es.Error.{Result, plain}
use eventstore.Es.Envelope.{Envelope}
use eventstore.Aggregate.Runtime.{Codec}
use eventstore.CmdWorkflow.Act.{Done}
use eventstore.CmdWorkflow.Subscriber.{
  Context, Subscriber, EventFilter, pos, negsuc, sync, drop_policy, matches, register, refused,
  with_subs,
}
use eventstore.CmdWorkflow.Codec.{
  Library, to_wire, of_wire, decode_events, encode_envelopes, decode_envelopes,
  encode_append_result, decode_append_result, result_to_wire, result_of_wire,
}
use eventstore.CmdWorkflow.Bus.{
  Workflow, AggregateRunner, run_retries, attempt_call, filter_batch, retry_loop, agg_options,
  int_suc, apply_cmd_options,
}
use eventstore.CmdWorkflow.Dispatch.{
  append_step, read_envelopes_step, read_state_step, load_state, run_sync_subscriber, on_exhausted,
}
use eventstore.CmdWorkflow.Futures.{wait_all}
use eventstore.CmdWorkflow.HandleCmd.{
  handle_cmd, handle_once, nested_cmd, fan_out, start_all, apply_all,
}
use eventstore.CmdWorkflow.Retries.{
  Succeeds, Exhausts, RunsOn, run_retries-Ends, run_retries-forever,
}
use eventstore.CmdWorkflow.Replay.Replayed.{Answers, handle_cmd-replayed}
use eventstore.CmdWorkflow.Batch.{
  IsBatch, filter_batch-IsBatch, decode_envelopes-encode_envelopes, without_hashes,
}
use eventstore.CmdWorkflow.Registered.{DistinctNames, AllSound, with_subs-AllSound}
use eventstore.Tests.EsTests.{user_42, first}
use eventstore.Tests.JournalTests.{Journal, engine, engine-Durable, run, entry}

abbrev plain_codec : Codec Text
plain_codec = record {
  encode = λ e. ok (record { payload = e; type_url = []; schema_version = 1 });
  decode = λ type_url version payload. ok payload;
}

unfoldable read_tally : Text → Result ℕ
read_tally (n ∷ []) = ok n
read_tally _ = err plain

-- gob, as far as one batch needs it.
abbrev small_lib : Library
small_lib = record {
  uuid_string = λ u. u;
  new_sha1 = λ u t. t;
  error_text = λ e. text "failed";
  new_error = λ t. plain;
  path_match = λ p t. true;
  gob_result = λ r. r.start_version ∷ [];
  ungob_result = λ t. ok (record {
    start_version = 1;
    end_version = 1;
    start_global_position = 1;
    end_global_position = 1;
    recorded_at = 7;
  });
  gob_envelopes = λ es. text "one";
  ungob_envelopes = λ t. ok (to_wire first ∷ []);
}

abbrev any_event : EventFilter
any_event = record { type_urls = []; stream_glob = []; tenants = []; custom = none }

abbrev at_start : Context
at_start = record { step_prefix = []; timeout = none }

-- Fails until the counter is 3, and counts its calls.
unfoldable flaky : ℕ → Result Done × ℕ
flaky n = if n == 3 then (ok tt, 4) else (err plain, suc n)

abbrev handler : Context → List Envelope → ℕ → List Text → ℕ → Result Done × ℕ
unfolding flaky
handler ctx envs state events d = flaky d

abbrev failing : Subscriber ℕ Text Text ℕ
failing = record {
  name = text "read";
  filter = any_event;
  mode = sync;
  max_retries = pos 1;
  on_exhausted = drop_policy;
  attempt_timeout = 0;
  handle = some handler;
  compensate = none;
}

run_retries-Ends_example :
    Succeeds
      (attempt_call at_start [] 0 [] failing)
      2
      (ok tt)
      2
      (run_retries 9 at_start [] 0 [] failing 2)
    ⊎ Exhausts
        (attempt_call at_start [] 0 [] failing)
        2
        (ok tt)
        2
        (run_retries 9 at_start [] 0 [] failing 2)
run_retries-Ends_example =
    run_retries-Ends at_start [] 0 [] failing handler 1 9 2 refl refl (omega arith) (omega arith)

abbrev stubborn : Subscriber ℕ Text Text ℕ
stubborn = record failing { max_retries = negsuc 0 }

run_retries-forever_example :
    Succeeds
      (attempt_call at_start [] 0 [] stubborn)
      9
      (ok tt)
      0
      (run_retries 9 at_start [] 0 [] stubborn 0)
    ⊎ RunsOn
        (attempt_call at_start [] 0 [] stubborn)
        9
        (ok tt)
        0
        (run_retries 9 at_start [] 0 [] stubborn 0)
run_retries-forever_example = run_retries-forever at_start [] 0 [] stubborn handler 0 9 0 refl refl

first_decoded : decode_events plain_codec (first ∷ []) ≡ ok (first.payload ∷ [])
unfolding decode_events
first_decoded = refl

filter_batch-IsBatch_example :
    IsBatch
      (λ p t. true)
      failing
      plain_codec
      (filter_batch (λ p t. true) failing (first ∷ []) (first.payload ∷ []))
filter_batch-IsBatch_example =
    filter_batch-IsBatch (λ p t. true) failing plain_codec (first ∷ []) (first.payload ∷ [])
      first_decoded

decode_envelopes-encode_envelopes_example :
    decode_envelopes small_lib (encode_envelopes small_lib (first ∷ []))
    ≡ ok (map without_hashes (first ∷ []))
unfolding to_wire
decode_envelopes-encode_envelopes_example =
    decode_envelopes-encode_envelopes small_lib (first ∷ []) refl

with_subs-AllSound_example : DistinctNames (failing ∷ []) × AllSound (failing ∷ [])
unfolding with_subs register refused any_row
with_subs-AllSound_example = with_subs-AllSound [] (failing ∷ []) (failing ∷ []) tt tt refl

-- The state is the number of calls that changed the world.
abbrev runner : AggregateRunner ℕ Text ℕ
unfolding read_tally
runner = record {
  handle = λ sid cmd opts d. (
    ok (record {
      start_version = 1;
      end_version = 1;
      start_global_position = 1;
      end_global_position = 1;
      recorded_at = 7;
    }),
    suc d,
  );
  load = λ sid d. ok (d, d);
  encode_state = λ s. ok (s ∷ []);
  decode_state = read_tally;
  now = λ d. d;
}

abbrev bus : Workflow ℕ Text Text Journal ℕ
bus = record {
  runner = runner;
  read_stream = λ sid from d. ok (first ∷ []);
  wf = engine;
  codec = plain_codec;
  subscribers = failing ∷ [];
  dlq = none;
  async_send = none;
}

-- The append is the first call, the two attempts of the subscriber are the others.
abbrev journal_after : Journal
journal_after =
    (text "read:cmd:" ++ first.event_id, text "failed")
    ∷ (text "read-state", 1 ∷ [])
    ∷ (text "read-envelopes", text "one")
    ∷ (text "append", 1 ∷ [])
    ∷ []

first_run :
    handle_cmd small_lib 9 bus 0 at_start user_42 (text "c") [] ([], 0)
    ≡ some (ok 1, (journal_after, 3))
unfolding handle_cmd handle_once append_step run entry fan_out runner decode_append_result
    read_envelopes_step text_eq decode_envelopes read_state_step decode_events start_all
    filter_batch matches run_sync_subscriber run_retries handler wait_all apply_all on_exhausted
    to_wire encode_envelopes encode_append_result any_row agg_options apply_cmd_options int_suc
    retry_loop of_wire result_of_wire result_to_wire load_state nested_cmd flaky read_tally
first_run = refl

handle_cmd-replayed_example :
    Answers small_lib 9 bus engine-Durable
      (nested_cmd small_lib 9 bus 0)
      at_start
      user_42
      (text "c")
      []
      1
      journal_after
      50
handle_cmd-replayed_example =
    handle_cmd-replayed small_lib 9 bus engine-Durable 0 at_start user_42 (text "c") [] 1 ([], 0)
      (journal_after, 3) journal_after 50 ((refl, refl), tt) first_run (λ name bytes h. h)
