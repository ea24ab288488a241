-- ===== src/CmdWorkflow/Batch.antt =====
-- The batch of one subscriber: the filter of HandleCmd in cmdworkflow/bus.go, and codec.go.
use eventstore.Base.{
  ◌≡◌, refl, ap, ◌∙◌, subst, Bool, true, false, List, [], ◌∷◌, map, Text, ok, bind-ok, ◌>>=◌,
  any_row, if◌then◌else◌, not,
}
use eventstore.Es.Envelope.{Envelope}
use eventstore.Aggregate.Runtime.{Codec}
use eventstore.CmdWorkflow.Codec.{
  Library, decode_events, encode_envelopes, decode_envelopes, to_wire, of_wire,
}
use eventstore.CmdWorkflow.Subscriber.{Subscriber, matches}
use eventstore.CmdWorkflow.Bus.{filter_batch}

-- An envelope without the two hashes of its chain.
abbrev pub without_hashes : Envelope → Envelope
without_hashes env = record env { hash = []; prev_hash = [] }

of_wire-to_wire : (envs : List Envelope) → map of_wire (map to_wire envs) ≡ map without_hashes envs
unfolding of_wire to_wire
of_wire-to_wire [] = refl
of_wire-to_wire (env ∷ envs) = ap (◌∷◌ (without_hashes env)) (of_wire-to_wire envs)

-- The envelopes that a step journals come back with every field but the two hashes, if gob decodes
-- what it encoded of them.
pub decode_envelopes-encode_envelopes :
    (lib : Library) (envs : List Envelope)
    → lib.ungob_envelopes (lib.gob_envelopes (map to_wire envs)) ≡ ok (map to_wire envs)
    → decode_envelopes lib (encode_envelopes lib envs) ≡ ok (map without_hashes envs)
unfolding decode_envelopes encode_envelopes
decode_envelopes-encode_envelopes lib envs gob =
    ap (λ r. r >>= (λ ws. ok (map of_wire ws))) gob ∙ ap (λ z. ok z) (of_wire-to_wire envs)

module _ {S C E D : Type 0} (glob : Text → Text → Bool) (sub : Subscriber S C E D)
    (codec : Codec E) where
  -- The events are those of the envelopes, which all pass the filter.
  abbrev pub IsBatch : List Envelope × List E → Type 0
  IsBatch batch =
      (decode_events codec batch.0 ≡ ok batch.1)
      × (any_row (λ (env : Envelope). not (matches glob sub.filter env)) batch.0 ≡ false)

  IsBatch-keep :
      (keep : Bool) (env : Envelope) (evt : E) (rest : List Envelope × List E)
      → matches glob sub.filter env ≡ keep
      → codec.decode env.type_url env.schema_version env.payload ≡ ok evt
      → IsBatch rest
      → IsBatch (if keep then (env ∷ rest.0, evt ∷ rest.1) else rest)
  unfolding decode_events any_row
  IsBatch-keep true env evt rest m d (ds, ms) = (rw (d, ds) refl, rw m ms)
  IsBatch-keep false env evt rest m d h = h

  -- The events that a subscriber is given are those of the envelopes that it is given, and each of
  -- these passes its filter, if the events that the batch was decoded to are given.
  pub filter_batch-IsBatch :
      (envs : List Envelope) (events : List E)
      → decode_events codec envs ≡ ok events
      → IsBatch (filter_batch glob sub envs events)
  unfolding decode_events filter_batch any_row
  filter_batch-IsBatch [] events h = (refl, refl)
  filter_batch-IsBatch (env ∷ envs) events h =
      let (evt, one, h₁) = bind-ok (codec.decode env.type_url env.schema_version env.payload) _ h in
      let (evts, more, last) = bind-ok (decode_events codec envs) _ h₁ in
      let same : evt ∷ evts ≡ events = cc last in
      subst (λ z. IsBatch (filter_batch glob sub (env ∷ envs) z)) same
        (IsBatch-keep (matches glob sub.filter env) env evt (filter_batch glob sub envs evts) refl
          one (filter_batch-IsBatch envs evts more))
