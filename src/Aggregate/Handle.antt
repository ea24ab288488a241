-- ===== src/Aggregate/Handle.antt =====
-- Handle of aggregate/runtime.go, over the store, the decider and the codecs of Aggregate/Runtime and
-- over what EncryptPII does with the Shredder's keys.
use eventstore.Base.{
  ℕ, suc, Bool, false, Option, none, some, List, [], ◌∷◌, Text, ok, err, ◌>>=◌, if◌then◌else◌,
}
use eventstore.Es.Error.{Result, terminal}
use eventstore.Es.StreamId.{StreamId}
use eventstore.Es.Envelope.{EventToAppend, AppendParams, AppendResult, ConstraintOp, Uuid, Time}
use eventstore.Aggregate.Runtime.{
  Store, StateCodec, Runtime, Loaded, HandleConfig, HandleOption, default_handle_config,
  apply_options, or_id, state_schema_version, load,
}

module _ {S C E : Type 0} (rt : Runtime S C E) where
  unfoldable pub evolve_all : S → List E → S
  evolve_all s [] = s
  evolve_all s (e ∷ es) = evolve_all (rt.decider.evolve s e) es

  abbrev pub is_closed : S → Bool
  is_closed s = elim rt.decider.is_terminal [ none ↦ false | some f ↦ f s ]

  -- The optional state_cache part of the parameters.
  abbrev pub stated : S → List E → AppendParams → Option (StateCodec S) → Result AppendParams
  stated state events p none = ok p
  stated state events p (some sc) = do
    let new_state = evolve_all state events
    bytes ← sc.encode new_state
    ok (record p {
      new_state = bytes.0;
      state_type_url = bytes.1;
      state_schema_version = state_schema_version rt;
      terminal = is_closed new_state;
    })

  unfoldable pub with_state : S → List E → AppendParams → Result AppendParams
  unfolding state_schema_version evolve_all
  with_state state events p = stated state events p rt.state_codec

  module _ {K : Type 0} (encrypt : Text → Text → E → K → Result E × K) where
    encrypt_pii : StreamId → E → Option Text → K → Result E × K
    encrypt_pii sid evt none k = (ok evt, k)
    encrypt_pii sid evt (some subject) k = encrypt sid.tenant (or_id subject sid) evt k

    -- The event is cloned first, so the caller's own stays as it is.
    unfoldable pub encrypt_event : StreamId → E → K → Result E × K
    unfolding encrypt_pii
    encrypt_event sid evt k = elim rt.shredder [
      | none ↦ (ok evt, k)
      | some pii ↦ encrypt_pii sid evt (pii.subject evt) k
    ]

    abbrev pub encoded : HandleConfig → Uuid → Result E × K → Result EventToAppend × K
    encoded cfg id (err e, k) = (err e, k)
    encoded cfg id (ok evt, k) = (
      do
        enc ← rt.codec.encode evt
        ok (record {
          event_id = id;
          type_url = enc.type_url;
          schema_version = enc.schema_version;
          occurred_at = cfg.occurred_at;
          correlation_id = cfg.correlation_id;
          causation_id = cfg.causation_id;
          command_id = cfg.command_id;
          actor = cfg.actor;
          payload = enc.payload;
          payload_json = [];
          key_refs = [];
        }),
      k,
    )

    unfoldable pub encode_event : StreamId → HandleConfig → Uuid → E → K → Result EventToAppend × K
    encode_event sid cfg id evt k = encoded cfg id (encrypt_event sid evt k)

    abbrev pub consed :
        EventToAppend → Result (List EventToAppend) × K → Result (List EventToAppend) × K
    consed e (err x, k) = (err x, k)
    consed e (ok es, k) = (ok (e ∷ es), k)

    abbrev pub then_events :
        (K → Result (List EventToAppend) × K)
        → Result EventToAppend × K
        → Result (List EventToAppend) × K
    then_events next (err x, k) = (err x, k)
    then_events next (ok e, k) = consed e (next k)

    unfoldable pub encode_events :
        StreamId → HandleConfig → (ℕ → Uuid) → ℕ → List E → K → Result (List EventToAppend) × K
    encode_events sid cfg fresh i [] k = (ok [], k)
    encode_events sid cfg fresh i (evt ∷ evts) k =
        then_events (encode_events sid cfg fresh (suc i) evts)
          (encode_event sid cfg (fresh i) evt k)

    abbrev pub with_events :
        StreamId
        → Loaded S
        → List E
        → List ConstraintOp
        → Result (List EventToAppend) × K
        → Result (Option AppendParams) × K
    with_events sid l evts ops (err x, k) = (err x, k)
    with_events sid l evts ops (ok es, k) = (
      do
        p ← with_state l.state evts (record {
          stream_id = sid;
          expected_version = l.version;
          events = es;
          constraints = ops;
          new_state = none;
          state_type_url = [];
          state_schema_version = 0;
          terminal = false;
        })
        ok (some p),
      k,
    )

    -- From the decision to the append. No parameters stand for a command that produces no events.
    unfoldable pub prepare_events :
        StreamId
        → HandleConfig
        → (ℕ → Uuid)
        → Loaded S
        → List E × List ConstraintOp
        → K
        → Result (Option AppendParams) × K
    prepare_events sid cfg fresh l ([], ops) k = (ok none, k)
    prepare_events sid cfg fresh l (evt ∷ evts, ops) k =
        with_events sid l (evt ∷ evts) ops (encode_events sid cfg fresh 0 (evt ∷ evts) k)

    abbrev pub zero_result : AppendResult
    zero_result = record {
      start_version = 0;
      end_version = 0;
      start_global_position = 0;
      end_global_position = 0;
      recorded_at = 0;
    }

    abbrev pub on_decision :
        StreamId
        → HandleConfig
        → (ℕ → Uuid)
        → Loaded S
        → Result (List E × List ConstraintOp)
        → K
        → Result (Option AppendParams) × K
    on_decision sid cfg fresh l (err e) k = (err e, k)
    on_decision sid cfg fresh l (ok decided) k = prepare_events sid cfg fresh l decided k

    abbrev pub on_loaded :
        StreamId
        → C
        → HandleConfig
        → (ℕ → Uuid)
        → Result (Loaded S)
        → K
        → Result (Option AppendParams) × K
    on_loaded sid cmd cfg fresh (err e) k = (err e, k)
    on_loaded sid cmd cfg fresh (ok l) k =
        if is_closed l.state
        then (err terminal, k)
        else on_decision sid cfg fresh l (rt.decider.decide l.state cmd) k

    module _ {D : Type 0} (store : Store D) where
      -- Everything before the append.
      unfoldable pub prepare :
          StreamId → C → HandleConfig → (ℕ → Uuid) → D → K → Result (Option AppendParams) × K
      unfolding prepare_events
      prepare sid cmd cfg fresh d k = on_loaded sid cmd cfg fresh (load rt store sid d) k

      abbrev pub with_keys : K → Result AppendResult × D → Result AppendResult × (D × K)
      with_keys k (r, d) = (r, (d, k))

      abbrev pub submit :
          Time → D → Result (Option AppendParams) × K → Result AppendResult × (D × K)
      submit now d (err e, k) = (err e, (d, k))
      submit now d (ok none, k) = (ok zero_result, (d, k))
      submit now d (ok (some p), k) = with_keys k (store.append now p d)

      -- The method Handle (handleImpl), at the time `now`, with the new ids `cid` and `fresh`, over
      -- the store and the keys.
      unfoldable pub handle :
          Time
          → Uuid
          → (ℕ → Uuid)
          → StreamId
          → C
          → List HandleOption
          → D
          → K
          → Result AppendResult × (D × K)
      handle now cid fresh sid cmd opts d k =
          submit now d
            (prepare sid cmd (apply_options (default_handle_config now cid) opts) fresh d k)
