-- ===== src/Aggregate/Runtime.antt =====
-- aggregate/runtime.go over the interfaces of es/store.go, es/state_cache.go and es/decider.go.
-- The store, the decider and the codecs are arguments; so are the time, the new UUIDs and, where a
-- Shredder is wired, what the generated PIIEncoder methods of the events do with it. Logging,
-- tracing and metrics are left out.
use eventstore.Base.{
  ℕ, Bool, Option, none, some, List, [], ◌∷◌, ◌++◌, Text, ok, err, ◌>>=◌, ltb, ◌==◌, if◌then◌else◌,
}
use eventstore.Es.Error.{Result}
use eventstore.Es.StreamId.{StreamId, canonical}
use eventstore.Es.Envelope.{
  Envelope, AppendParams, AppendResult, ConstraintOp, StateCacheRow, Actor, Uuid, Time,
  actor_unspecified,
}

-- es.Store with es.StateCacheReader, as far as the runtime calls them.
pub record Store (D : Type 0) : Type 0 where
  pub append : Time → AppendParams → D → Result AppendResult × D
  pub read_stream : StreamId → ℕ → D → Result (List Envelope)
  pub get_state : Text → Text → D → Result StateCacheRow

-- es.Decider; is_terminal may be nil.
pub record Decider (S C E : Type 0) : Type 0 where
  pub initial : S
  pub decide : S → C → Result (List E × List ConstraintOp)
  pub evolve : S → E → S
  pub is_terminal : Option (S → Bool)

pub record EncodedEvent : Type 0 where
  pub payload : Text
  pub type_url : Text
  pub schema_version : ℕ

pub record Codec (E : Type 0) : Type 0 where
  pub encode : E → Result EncodedEvent
  pub decode : Text → ℕ → Text → Result E

-- The bytes of a state with its type URL; none is a nil slice, for which no row is written.
pub record StateCodec (S : Type 0) : Type 0 where
  pub encode : S → Result (Option Text × Text)
  pub decode : Text → Result S

pub record RedactedField : Type 0 where
  pub name : Text
  pub subject : Text
  pub reason : Text

-- The generated methods of shred.PIIEncoder under one Shredder. `subject` is none for an event
-- that does not implement the interface. EncryptPII changes the Shredder's keys, which have the type
-- `K` of Aggregate/Handle; `decrypt` is DecryptPII with the keys of the events read.
pub record Pii (E : Type 0) : Type 0 where
  pub subject : E → Option Text
  pub decrypt : Text → Text → E → Result (E × List RedactedField)

pub record Runtime (S C E : Type 0) : Type 0 where
  pub decider : Decider S C E
  pub codec : Codec E
  pub state_codec : Option (StateCodec S)
  pub schema_version : ℕ
  pub shredder : Option (Pii E)

-- handleConfig.
pub record HandleConfig : Type 0 where
  pub command_id : Uuid
  pub correlation_id : Uuid
  pub causation_id : Uuid
  pub occurred_at : Time
  pub actor : Actor

pub data HandleOption : Type 0 where
  with_command_id with_correlation_id with_causation_id : Uuid → HandleOption
  with_occurred_at : Time → HandleOption
  with_actor : Actor → HandleOption

-- defaultHandleConfig, for a new id `cid`.
unfoldable pub default_handle_config : Time → Uuid → HandleConfig
default_handle_config now cid = record {
  command_id = cid;
  correlation_id = cid;
  causation_id = cid;
  occurred_at = now;
  actor = record {
    kind = actor_unspecified;
    principal = [];
    on_behalf_of = [];
    api_key_id = [];
    attributes = [];
  };
}

unfoldable pub apply_option : HandleConfig → HandleOption → HandleConfig
apply_option c (with_command_id id) = record c { command_id = id }
apply_option c (with_correlation_id id) = record c { correlation_id = id }
apply_option c (with_causation_id id) = record c { causation_id = id }
apply_option c (with_occurred_at t) = record c { occurred_at = t }
apply_option c (with_actor a) = record c { actor = a }

unfoldable pub apply_options : HandleConfig → List HandleOption → HandleConfig
unfolding apply_option
apply_options c [] = c
apply_options c (o ∷ os) = apply_options (apply_option c o) os

-- What Load returns, with the redactions that it hands to OnRedacted.
pub record Loaded (S : Type 0) : Type 0 where
  pub state : S
  pub version : ℕ
  pub redacted : List RedactedField

abbrev pub or_id : Text → StreamId → Text
or_id [] sid = sid.id
or_id (b ∷ s) sid = b ∷ s

module _ {S C E : Type 0} (rt : Runtime S C E) where
  -- The method stateSchemaVersion.
  unfoldable pub state_schema_version : ℕ
  state_schema_version = if rt.schema_version == 0 then 1 else rt.schema_version

  decrypt_pii : Pii E → StreamId → E → Option Text → Result (E × List RedactedField)
  decrypt_pii pii sid evt none = ok (evt, [])
  decrypt_pii pii sid evt (some subject) = pii.decrypt sid.tenant (or_id subject sid) evt

  unfoldable pub decrypt_event : StreamId → E → Result (E × List RedactedField)
  unfolding decrypt_pii
  decrypt_event sid evt = elim rt.shredder [
    | none ↦ ok (evt, [])
    | some pii ↦ decrypt_pii pii sid evt (pii.subject evt)
  ]

  -- One pass of Load's loop.
  unfoldable pub replay_event : StreamId → Loaded S → Envelope → Result (Loaded S)
  replay_event sid l env = do
    evt ← rt.codec.decode env.type_url env.schema_version env.payload
    plain' ← decrypt_event sid evt
    ok (record {
      state = rt.decider.evolve l.state plain'.0;
      version = env.version;
      redacted = l.redacted ++ plain'.1;
    })

  unfoldable pub replay : StreamId → Loaded S → List Envelope → Result (Loaded S)
  replay sid l [] = ok l
  replay sid l (env ∷ envs) = do l' ← replay_event sid l env; replay sid l' envs

  -- The base of a full replay.
  abbrev pub unborn : Loaded S
  unborn = record { state = rt.decider.initial; version = 0; redacted = [] }

  abbrev pub decoded_base : Result S → ℕ → Loaded S
  decoded_base (ok s) v = record { state = s; version = v; redacted = [] }
  decoded_base (err e) v = unborn

  -- A cached row that is missing, of another schema or not decodable is passed over.
  abbrev pub row_base : StateCodec S → Result StateCacheRow → Loaded S
  row_base sc (err e) = unborn
  row_base sc (ok row) =
      if ltb 0 row.version
      then (if row.state_schema_version == state_schema_version
          then decoded_base (sc.decode row.state) row.version
          else unborn)
      else unborn

  module _ {D : Type 0} (store : Store D) where
    -- The replay base: the state_cache row, if a StateCodec is wired.
    unfoldable pub replay_base : StreamId → D → Loaded S
    unfolding state_schema_version
    replay_base sid d = elim rt.state_codec [
      | none ↦ unborn
      | some sc ↦ row_base sc (store.get_state sid.tenant (canonical sid) d)
    ]

    -- The method Load.
    unfoldable pub load : StreamId → D → Result (Loaded S)
    load sid d = do
      let base = replay_base sid d
      envs ← store.read_stream sid base.version d
      replay sid base envs
