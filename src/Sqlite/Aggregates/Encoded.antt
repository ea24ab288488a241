-- ===== src/Sqlite/Aggregates/Encoded.antt =====
-- Events that aggregate/runtime.go encoded and that its Load decodes again.
use eventstore.Base.{
  ℕ, suc, ◌+◌, ◌≡◌, refl, ap, ◌∙◌, List, [], ◌∷◌, ◌++◌, ok, subst, bind-ok, arith, length, some,
  Option, Text, err,
}
use eventstore.Es.Error.{Result}
use eventstore.Es.Wire.{Wire}
use eventstore.Es.StreamId.{StreamId}
use eventstore.Es.Envelope.{EventToAppend, Time, Uuid}
use eventstore.Aggregate.Runtime.{
  Runtime, Loaded, RedactedField, EncodedEvent, StateCodec, HandleConfig, decrypt_event,
}
use eventstore.Aggregate.Handle.{
  encrypt_event, encoded, encode_event, consed, then_events, encode_events, evolve_all,
}
use eventstore.Sqlite.EventLog.{recorded}
use eventstore.Sqlite.Aggregates.Replay.{fold_event, fold_events}

-- The generated codecs read back what they wrote, the one of states also once SQLite has turned the
-- JSON into its binary form and back, and a subject's key decrypts what it encrypted. No state has
-- nil bytes.
pub record ReadsBack {S C E K : Type 0} (rt : Runtime S C E)
    (encrypt : Text → Text → E → K → Result E × K) (w : Wire) : Type 0 where
  pub event_back :
      (e : E) (x : EncodedEvent)
      → rt.codec.encode e ≡ ok x
      → rt.codec.decode x.type_url x.schema_version x.payload ≡ ok e
  pub pii_back :
      (sid : StreamId) (e x : E) (k : K)
      → (encrypt_event rt encrypt sid e k).0 ≡ ok x
      → (rs : List RedactedField) × (decrypt_event rt sid x ≡ ok (e, rs))
  pub state_back :
      (sc : StateCodec S) (s : S) (x : Option Text × Text)
      → rt.state_codec ≡ some sc
      → sc.encode s ≡ ok x
      → (bytes : Text) × (x.0 ≡ some bytes)
        × ((binary : Text)
            → w.jsonb bytes ≡ ok binary
            → (t : Text) × (w.json binary ≡ ok t) × (sc.decode t ≡ ok s))

module _ {S C E K : Type 0} (rt : Runtime S C E) (encrypt : Text → Text → E → K → Result E × K)
    (w : Wire) (back : ReadsBack rt encrypt w) (sid : StreamId) (cfg : HandleConfig)
    (now : Time) where
  -- The appended event that carries the bytes `b`.
  abbrev carried : Uuid → EncodedEvent → EventToAppend
  carried id b = record {
    event_id = id;
    type_url = b.type_url;
    schema_version = b.schema_version;
    occurred_at = cfg.occurred_at;
    correlation_id = cfg.correlation_id;
    causation_id = cfg.causation_id;
    command_id = cfg.command_id;
    actor = cfg.actor;
    payload = b.payload;
    payload_json = [];
    key_refs = [];
  }

  abbrev Advances : Loaded S → E → ℕ → EventToAppend → Type 0
  Advances l evt v ev =
      (m : Loaded S) × (fold_event rt sid l (record { version = v; event = ev; recorded_at = now })
        ≡ ok m)
      × (m.state ≡ rt.decider.evolve l.state evt)
      × (m.version ≡ v)

  -- One appended event takes the state one step on.
  encode-Advances :
      (id : Uuid) (evt : E) (ev : EventToAppend) (l : Loaded S) (v : ℕ) (out : Result E × K) (k : K)
      → encrypt_event rt encrypt sid evt k ≡ out
      → (encoded rt encrypt cfg id out).0 ≡ ok ev
      → Advances l evt v ev
  unfolding fold_event
  encode-Advances id evt ev l v (err e, k') k enc h = absurd (ground arith)
  encode-Advances id evt ev l v (ok x, k') k enc h =
      let (b, wrote, h₂) = bind-ok (rt.codec.encode x) (λ b. ok (carried id b)) h in
      let (rs, dec) = back.pii_back sid evt x k (ap (λ (z : Result E × K). z.0) enc) in
      let same : carried id b ≡ ev = cc h₂ in
      subst (Advances l evt v) same (
        record { state = rt.decider.evolve l.state evt; version = v; redacted = l.redacted ++ rs },
        rw (back.event_back x b wrote, dec) refl,
        refl,
        refl,
      )

  -- The first event and the others.
  then_events-ok :
      (next : K → Result (List EventToAppend) × K) (out : Result EventToAppend × K)
      (evs : List EventToAppend)
      → (then_events rt encrypt next out).0 ≡ ok evs
      → (ev : EventToAppend) × (rest : List EventToAppend) × (k : K) × (out.0 ≡ ok ev)
        × ((next k).0 ≡ ok rest)
        × (ev ∷ rest ≡ evs)
  then_events-ok next (err e, k) evs h = absurd (ground arith)
  then_events-ok next (ok ev, k) evs h =
      let (rest, more, whole) = with_rest (next k) refl h in (ev, rest, k, refl, more, whole)
    where
      with_rest :
          (more : Result (List EventToAppend) × K)
          → next k ≡ more
          → (consed rt encrypt ev more).0 ≡ ok evs
          → (rest : List EventToAppend) × ((next k).0 ≡ ok rest) × (ev ∷ rest ≡ evs)
      with_rest (err e, k') at h' = absurd (ground arith)
      with_rest (ok rest, k') at h' =
          (rest, ap (λ (z : Result (List EventToAppend) × K). z.0) at, cc)

  -- The events of a command, encoded and appended, lead where evolving by them leads.
  pub encode_events-fold_events :
      (fresh : ℕ → Uuid) (i : ℕ) (evts : List E) (evs : List EventToAppend) (l : Loaded S) (v : ℕ)
      (k : K)
      → l.version ≡ v
      → (encode_events rt encrypt sid cfg fresh i evts k).0 ≡ ok evs
      → (m : Loaded S) × (fold_events rt sid l (recorded now v evs) ≡ ok m)
        × (m.state ≡ evolve_all rt l.state evts)
        × (m.version ≡ v + length evts)
        × (length evs ≡ length evts)
  unfolding encode_events encode_event fold_events evolve_all recorded
  encode_events-fold_events fresh i [] evs l v k at h =
      let none_left : [] ≡ evs = cc in
      subst
        (λ (es : List EventToAppend).
          (m : Loaded S) × (fold_events rt sid l (recorded now v es) ≡ ok m)
          × (m.state ≡ l.state)
          × (m.version ≡ v + 0)
          × (length es ≡ 0))
        none_left (l, refl, refl, omega arith, refl)
  encode_events-fold_events fresh i (evt ∷ evts) evs l v k at h =
      let (ev, rest, k', one, more, whole) =
        then_events-ok (encode_events rt encrypt sid cfg fresh (suc i) evts)
          (encode_event rt encrypt sid cfg (fresh i) evt k) evs h in
      let (m, step, state, version) =
        encode-Advances (fresh i) evt ev l (suc v) (encrypt_event rt encrypt sid evt k) k refl
          one in
      let (n, folded, final, count, len) =
        encode_events-fold_events fresh (suc i) evts rest m (suc v) k' version more in
      subst
        (λ (es : List EventToAppend).
          (z : Loaded S) × (fold_events rt sid l (recorded now v es) ≡ ok z)
          × (z.state ≡ evolve_all rt (rt.decider.evolve l.state evt) evts)
          × (z.version ≡ v + length (evt ∷ evts))
          × (length es ≡ length (evt ∷ evts)))
        whole
        (n, rw step folded, final ∙ ap (λ s. evolve_all rt s evts) state, omega arith, ap suc len)
