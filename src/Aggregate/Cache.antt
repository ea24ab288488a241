-- ===== src/Aggregate/Cache.antt =====
-- The state_cache shortcut of Load (aggregate/runtime.go), over what a store serves.
use eventstore.Base.{
  ℕ, zero, suc, ◌≡◌, refl, Bool, true, false, Option, none, some, List, [], ◌∷◌, ◌++◌, Text, ok,
  err, ◌>>=◌, bind-ok, ltb, ◌==◌, if◌then◌else◌, take, drop, ==_iff,
}
use eventstore.Es.Error.{Error, Result}
use eventstore.Es.StreamId.{StreamId, canonical}
use eventstore.Es.Envelope.{Envelope, AppendParams, StateCacheRow, Time, Uuid}
use eventstore.Aggregate.Runtime.{
  Store, Runtime, RedactedField, Loaded, StateCodec, HandleOption, state_schema_version,
  replay_event, replay, unborn, decoded_base, row_base, replay_base, load, decrypt_event,
  apply_options, default_handle_config,
}
use eventstore.Aggregate.Handle.{prepare, submit, handle}

-- A store whose stream `sid` holds `envs`.
abbrev pub Serves : {D : Type 0} → Store D → StreamId → D → List Envelope → Type 0
Serves store sid d envs = (from : ℕ) → store.read_stream sid from d ≡ ok (drop from envs)

-- A store whose appends change nothing where they fail.
abbrev pub IsAtomic : {D : Type 0} → Store D → Type 0
IsAtomic {D} store =
    (now : Time) (p : AppendParams) (d : D) (e : Error)
    → (store.append now p d).0 ≡ err e
    → (store.append now p d).1 ≡ d

take-drop : {A : Type 0} (n : ℕ) (xs : List A) → take n xs ++ drop n xs ≡ xs
take-drop zero xs = refl
take-drop (suc n) [] = refl
take-drop (suc n) (x ∷ xs) = cc (take-drop n xs)

module _ {S C E : Type 0} (rt : Runtime S C E) where
  -- Equal up to the redactions met on the way.
  abbrev pub Same : Loaded S → Loaded S → Type 0
  Same l m = (l.state ≡ m.state) × (l.version ≡ m.version)

  -- `l` is what the events up to its version lead to.
  abbrev pub Replayed : StreamId → List Envelope → Loaded S → Type 0
  Replayed sid envs l =
      (m : Loaded S) × (replay rt sid (unborn rt) (take l.version envs) ≡ ok m) × Same m l

  -- A cached row that Load would use holds a state of the stream.
  abbrev pub RowCoherent : StateCodec S → StreamId → List Envelope → Result StateCacheRow → Type 0
  RowCoherent sc sid envs (err e) = Unit
  RowCoherent sc sid envs (ok row) =
      row.state_schema_version ≡ state_schema_version rt
      → (s : S) → sc.decode row.state ≡ ok s
      → Replayed sid envs (record { state = s; version = row.version; redacted = [] })

  -- The body of Load's loop after decoding.
  abbrev pub evolved : Envelope → Loaded S → E × List RedactedField → Loaded S
  evolved env l p = record {
    state = rt.decider.evolve l.state p.0;
    version = env.version;
    redacted = l.redacted ++ p.1;
  }

  abbrev pub decrypted : StreamId → Loaded S → Envelope → E → Result (Loaded S)
  decrypted sid l env evt = decrypt_event rt sid evt >>= λ p. ok (evolved env l p)

  replay_event-Same :
      (sid : StreamId) (l l' m : Loaded S) (env : Envelope)
      → Same l l'
      → replay_event rt sid l env ≡ ok m
      → (m' : Loaded S) × (replay_event rt sid l' env ≡ ok m') × Same m m'
  unfolding replay_event
  replay_event-Same sid l l' m env same h =
      let (evt, e, rest) =
        bind-ok (rt.codec.decode env.type_url env.schema_version env.payload) (decrypted sid l env)
          h in
      let (p, e', last) = bind-ok (decrypt_event rt sid evt) (λ p. ok (evolved env l p)) rest in
      let m≡ : evolved env l p ≡ m = cc last in
      (evolved env l' p, rw (e, e') refl, rw (← m≡) (cc same.0, refl))

  -- Redactions do not change where a replay leads.
  pub replay-Same :
      (sid : StreamId) (envs : List Envelope) (l l' m : Loaded S)
      → Same l l'
      → replay rt sid l envs ≡ ok m
      → (m' : Loaded S) × (replay rt sid l' envs ≡ ok m') × Same m m'
  unfolding replay
  replay-Same sid [] l l' m same h = let l≡ : l ≡ m = cc h in (l', refl, rw (← l≡) same)
  replay-Same sid (env ∷ envs) l l' m same h =
      let (n, e, rest) = bind-ok (replay_event rt sid l env) (λ n. replay rt sid n envs) h in
      let (n', e', same') = replay_event-Same sid l l' n env same e in
      let (m', e'', same'') = replay-Same sid envs n n' m same' rest in (m', rw e' e'', same'')

  pub replay-append :
      (sid : StreamId) (xs ys : List Envelope) (l m : Loaded S)
      → replay rt sid l (xs ++ ys) ≡ ok m
      → (n : Loaded S) × (replay rt sid l xs ≡ ok n) × (replay rt sid n ys ≡ ok m)
  unfolding replay
  replay-append sid [] ys l m h = (l, refl, h)
  replay-append sid (x ∷ xs) ys l m h =
      let (k, e, rest) = bind-ok (replay_event rt sid l x) (λ k. replay rt sid k (xs ++ ys)) h in
      let (n, e', last) = replay-append sid xs ys k m rest in (n, rw e e', last)

  module _ (sid : StreamId) (envs : List Envelope) where
    unborn-Replayed : Replayed sid envs (unborn rt)
    unfolding replay
    unborn-Replayed = (unborn rt, refl, (refl, refl))

    decoded-Replayed :
        (sc : StateCodec S) (row : StateCacheRow) (r : Result S)
        → sc.decode row.state ≡ r
        → row.state_schema_version ≡ state_schema_version rt
        → RowCoherent sc sid envs (ok row)
        → Replayed sid envs (decoded_base rt r row.version)
    decoded-Replayed sc row (err e) h v c = unborn-Replayed
    decoded-Replayed sc row (ok s) h v c = c v s h

    schema-case :
        (sc : StateCodec S) (row : StateCacheRow) (b : Bool)
        → (row.state_schema_version == state_schema_version rt) ≡ b
        → RowCoherent sc sid envs (ok row)
        → Replayed sid envs
            (if b then decoded_base rt (sc.decode row.state) row.version else unborn rt)
    schema-case sc row false h c = unborn-Replayed
    schema-case sc row true h c =
        decoded-Replayed sc row (sc.decode row.state) refl
          ((==_iff row.state_schema_version (state_schema_version rt)).0 h) c

    present-case :
        (sc : StateCodec S) (row : StateCacheRow) (b : Bool)
        → RowCoherent sc sid envs (ok row)
        → Replayed sid envs (
            if b
            then (if row.state_schema_version == state_schema_version rt
                then decoded_base rt (sc.decode row.state) row.version
                else unborn rt)
            else unborn rt)
    present-case sc row false c = unborn-Replayed
    present-case sc row true c =
        schema-case sc row (row.state_schema_version == state_schema_version rt) refl c

    pub row_base-Replayed :
        (sc : StateCodec S) (r : Result StateCacheRow)
        → RowCoherent sc sid envs r
        → Replayed sid envs (row_base rt sc r)
    row_base-Replayed sc (err e) c = unborn-Replayed
    row_base-Replayed sc (ok row) c = present-case sc row (ltb 0 row.version) c

    choice-Replayed :
        (o : Option (StateCodec S)) (r : Result StateCacheRow)
        → ((sc : StateCodec S) → o ≡ some sc → RowCoherent sc sid envs r)
        → Replayed sid envs (elim o [ none ↦ unborn rt | some sc ↦ row_base rt sc r ])
    choice-Replayed none r c = unborn-Replayed
    choice-Replayed (some sc) r c = row_base-Replayed sc r (c sc refl)

    -- Load from a coherent cached row gives the state and the version that replaying the whole
    -- stream gives, whenever that replay succeeds.
    pub load-cached :
        {D : Type 0} (store : Store D) (d : D) (full : Loaded S)
        → Serves store sid d envs
        → ((sc : StateCodec S)
            → rt.state_codec ≡ some sc
            → RowCoherent sc sid envs (store.get_state sid.tenant (canonical sid) d))
        → replay rt sid (unborn rt) envs ≡ ok full
        → (l : Loaded S) × (load rt store sid d ≡ ok l) × Same full l
    unfolding load replay_base
    load-cached store d full served coherent h =
        let base = replay_base rt store sid d in
        let (m, e, same) =
          choice-Replayed rt.state_codec (store.get_state sid.tenant (canonical sid) d) coherent in
        let v = base.version in
        let (n, e', rest) =
          replay-append sid (take v envs) (drop v envs) (unborn rt) full
            (rw (take-drop v envs) h) in
        let n≡ : m ≡ n = cc (e, e') in
        let (l, e'', same') = replay-Same sid (drop v envs) m base full same (rw n≡ rest) in
        (l, rw (served v) e'', same')

  module _ {K : Type 0} (encrypt : Text → Text → E → K → Result E × K) {D : Type 0}
      (store : Store D) (atomic : IsAtomic store) where
    submit-atomic :
        (now : Time) (d : D) (r : Result (Option AppendParams) × K) (e : Error)
        → (submit rt encrypt store now d r).0 ≡ err e
        → (submit rt encrypt store now d r).1.0 ≡ d
    submit-atomic now d (err x, k) e h = refl
    submit-atomic now d (ok none, k) e h = refl
    submit-atomic now d (ok (some p), k) e h = atomic now p d e h

    -- A Handle that fails, in the load, the decision, the encoding or the append, leaves the store
    -- as it was, if a failing append does; the keys that it added stay.
    pub handle-atomic :
        (now : Time) (cid : Uuid) (fresh : ℕ → Uuid) (sid : StreamId) (cmd : C)
        (opts : List HandleOption) (d : D) (k : K) (e : Error)
        → (handle rt encrypt store now cid fresh sid cmd opts d k).0 ≡ err e
        → (handle rt encrypt store now cid fresh sid cmd opts d k).1.0 ≡ d
    unfolding handle
    handle-atomic now cid fresh sid cmd opts d k e h =
        submit-atomic now d
          (prepare rt encrypt store sid cmd (apply_options (default_handle_config now cid) opts)
            fresh d k)
          e h
