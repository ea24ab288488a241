-- ===== src/Sqlite/Aggregates/Handled.antt =====
-- Handle of aggregate/runtime.go over the sqlite adapter, and the Load after it.
use eventstore.Base.{
  ℕ, ◌≡◌, refl, sym, ap, ◌∙◌, subst, Bool, true, false, Option, none, some, List, [], ◌∷◌, Text, ok,
  err, bind-ok, arith, if◌then◌else◌,
}
use eventstore.Es.Error.{Result, terminal}
use eventstore.Es.StreamId.{StreamId}
use eventstore.Es.Envelope.{AppendParams, ConstraintOp, EventToAppend, Uuid}
use eventstore.Aggregate.Runtime.{
  Runtime, Loaded, StateCodec, HandleConfig, load, state_schema_version, Store,
}
use eventstore.Aggregate.Handle.{
  prepare, prepare_events, encode_events, evolve_all, with_state, stated, is_closed, with_events,
  on_decision, on_loaded,
}

module _ {S C E : Type 0} (rt : Runtime S C E) where
  -- The bytes of the new state, where a StateCodec is wired.
  abbrev pub Stated : S → Option Text → Option (StateCodec S) → Type 0
  Stated state o none = Unit
  Stated state o (some sc) =
      (bytes : Option Text × Text) × (sc.encode state ≡ ok bytes) × (o ≡ bytes.0)

  pub record SameBatch (p q : AppendParams) : Type 0 where
    pub stream : q.stream_id ≡ p.stream_id
    pub expected : q.expected_version ≡ p.expected_version
    pub events : q.events ≡ p.events

  stated-Stated :
      (state : S) (evts : List E) (p q : AppendParams) (o : Option (StateCodec S))
      → stated rt state evts p o ≡ ok q
      → SameBatch p q × Stated (evolve_all rt state evts) q.new_state o
  stated-Stated state evts p q none h =
      let same : p ≡ q = cc in
      (subst (SameBatch p) same (record { stream = refl; expected = refl; events = refl }), tt)
  stated-Stated state evts p q (some sc) h =
      let (bytes, wrote, rest) = bind-ok (sc.encode (evolve_all rt state evts)) _ h in
      let same : record p {
        new_state = bytes.0;
        state_type_url = bytes.1;
        state_schema_version = state_schema_version rt;
        terminal = is_closed rt (evolve_all rt state evts);
      }
          ≡ q =
        cc in
      subst
        (λ (z : AppendParams).
          SameBatch p z
          × ((b : Option Text × Text) × (sc.encode (evolve_all rt state evts) ≡ ok b)
              × (z.new_state ≡ b.0)))
        same (record { stream = refl; expected = refl; events = refl }, (bytes, wrote, refl))

module _ {S C E K : Type 0} (rt : Runtime S C E)
    (encrypt : Text → Text → E → K → Result E × K) where
  -- What the parameters of an append carry of the command's outcome, for the keys `k` before it.
  pub record Carries (sid : StreamId) (cfg : HandleConfig) (fresh : ℕ → Uuid) (k : K) (l : Loaded S)
      (evts : List E) (p : AppendParams) : Type 0 where
    pub stream : p.stream_id ≡ sid
    pub expected : p.expected_version ≡ l.version
    pub written : (encode_events rt encrypt sid cfg fresh 0 evts k).0 ≡ ok p.events
    pub codec : Stated rt (evolve_all rt l.state evts) p.new_state rt.state_codec

  module _ (sid : StreamId) (cfg : HandleConfig) (fresh : ℕ → Uuid) (k : K) where
    -- What a command's events become.
    abbrev pub Prepared : Loaded S → List E → Option AppendParams → Type 0
    Prepared l evts none = evts ≡ []
    Prepared l evts (some p) = Carries sid cfg fresh k l evts p

    with_events-Prepared :
        (l : Loaded S) (evts : List E) (ops : List ConstraintOp)
        (out : Result (List EventToAppend) × K) (o : Option AppendParams)
        → encode_events rt encrypt sid cfg fresh 0 evts k ≡ out
        → (with_events rt encrypt sid l evts ops out).0 ≡ ok o
        → Prepared l evts o
    unfolding with_state
    with_events-Prepared l evts ops (err e, k') o enc h = absurd (ground arith)
    with_events-Prepared l evts ops (ok evs, k') o enc h =
        let start' : AppendParams = record {
          stream_id = sid;
          expected_version = l.version;
          events = evs;
          constraints = ops;
          new_state = none;
          state_type_url = [];
          state_schema_version = 0;
          terminal = false;
        } in
        let (p, st, h₂) = bind-ok (stated rt l.state evts start' rt.state_codec) _ h in
        let (same, codec) = stated-Stated rt l.state evts start' p rt.state_codec st in
        let done : some p ≡ o = cc in
        subst (Prepared l evts) done (record {
          stream = same.stream;
          expected = same.expected;
          written = ap (λ (z : Result (List EventToAppend) × K). z.0) enc ∙ ap ok (sym same.events);
          codec = codec;
        })

    prepare_events-Prepared :
        (l : Loaded S) (evts : List E) (ops : List ConstraintOp) (o : Option AppendParams)
        → (prepare_events rt encrypt sid cfg fresh l (evts, ops) k).0 ≡ ok o
        → Prepared l evts o
    unfolding prepare_events
    prepare_events-Prepared l [] ops none h = refl
    prepare_events-Prepared l [] ops (some p) h = absurd (ground arith)
    prepare_events-Prepared l (evt ∷ evts) ops o h =
        with_events-Prepared l (evt ∷ evts) ops
          (encode_events rt encrypt sid cfg fresh 0 (evt ∷ evts) k) o refl h

    -- What Handle decided on.
    pub record Decided (cmd : C) (l : Loaded S) (o : Option AppendParams) : Type 0 where
      pub evts : List E
      pub ops : List ConstraintOp
      pub decided : rt.decider.decide l.state cmd ≡ ok (evts, ops)
      pub prepared : Prepared l evts o

    decision-Decided :
        (cmd : C) (l : Loaded S) (out : Result (List E × List ConstraintOp))
        (o : Option AppendParams)
        → rt.decider.decide l.state cmd ≡ out
        → (on_decision rt encrypt sid cfg fresh l out k).0 ≡ ok o
        → Decided cmd l o
    decision-Decided cmd l (err e) o dec h = absurd (ground arith)
    decision-Decided cmd l (ok (evts, ops)) o dec h = record {
      evts = evts;
      ops = ops;
      decided = dec;
      prepared = prepare_events-Prepared l evts ops o h;
    }

    open_case :
        (cmd : C) (l : Loaded S) (b : Bool) (o : Option AppendParams)
        → (if b
            then (err terminal, k)
            else on_decision rt encrypt sid cfg fresh l (rt.decider.decide l.state cmd) k).0
          ≡ ok o
        → Decided cmd l o
    open_case cmd l true o h = absurd (ground arith)
    open_case cmd l false o h = decision-Decided cmd l (rt.decider.decide l.state cmd) o refl h

    pub prepare-Decided :
        {D : Type 0} (store : Store D) (cmd : C) (d : D) (l : Loaded S) (o : Option AppendParams)
        → load rt store sid d ≡ ok l
        → (prepare rt encrypt store sid cmd cfg fresh d k).0 ≡ ok o
        → Decided cmd l o
    unfolding prepare
    prepare-Decided store cmd d l o loaded h = open_case cmd l (is_closed rt l.state) o (
        subst (λ (r : Result (Loaded S)). (on_loaded rt encrypt sid cmd cfg fresh r k).0 ≡ ok o)
          loaded h)
