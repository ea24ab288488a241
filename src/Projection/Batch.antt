-- ===== src/Projection/Batch.antt =====
-- What one batch of projection/runtime.go has done with the events of its page.
use eventstore.Base.{
  ℕ, suc, ◌+◌, ◌≡◌, refl, ap, ◌∙◌, Bool, true, false, Option, none, some, List, [], ◌∷◌, ◌++◌, ok,
  err, arith, if◌then◌else◌, Text,
}
use eventstore.Es.Error.{Error, Result, plain}
use eventstore.Es.Envelope.{Envelope}
use eventstore.Projection.Runtime.{
  Projector, Surroundings, Pass, in_shard, refuse, captured, handled, on_shard, unless_stopped,
  handle_events,
}

-- The position of the last of some events, or `from`.
abbrev pub last_position : ℕ → List Envelope → ℕ
last_position from [] = from
last_position from (e ∷ es) = last_position e.global_position es

module _ (r : Projector) {W : Type 0} (io : Surroundings W) where
  -- Events that a batch is done with: it moves from one world to another and counts successes.
  pub data Done : List Envelope → W → W → ℕ → Type 0 where
    finish : {w : W} → Done [] w w 0
    skip :
        {env : Envelope} {envs : List Envelope} {w w' : W} {n : ℕ}
        → in_shard r env ≡ false
        → Done envs w w' n
        → Done (env ∷ envs) w w' n
    handle :
        {env : Envelope} {envs : List Envelope} {w w' w'' : W} {n : ℕ}
        → in_shard r env ≡ true
        → io.handler env w ≡ (none, w')
        → Done envs w' w'' n
        → Done (env ∷ envs) w w'' (suc n)
    dead_letter :
        {env : Envelope} {envs : List Envelope} {w w' w'' w''' : W} {n : ℕ} {e : Error}
        {insert : Text → Envelope → Error → W → Result W}
        → in_shard r env ≡ true
        → io.handler env w ≡ (some e, w')
        → r.dlq_on_failure ≡ true
        → io.dead_letters ≡ some insert
        → insert r.name env e w' ≡ ok w''
        → Done envs w'' w''' n
        → Done (env ∷ envs) w w''' n

  -- Why the loop stops at an event that the handler refused with `x`, leaving `w`: the event is not
  -- to be captured, or there is no dead-letter store, or that store failed.
  pub data Stops (env : Envelope) (x : Error) (w : W) : Error → Type 0 where
    fail_stop : r.dlq_on_failure ≡ false → Stops env x w x
    no_store : r.dlq_on_failure ≡ true → io.dead_letters ≡ none → Stops env x w plain
    store_failed :
        {e : Error} {insert : Text → Envelope → Error → W → Result W}
        → r.dlq_on_failure ≡ true
        → io.dead_letters ≡ some insert
        → insert r.name env x w ≡ err e
        → Stops env x w e

  -- The rest of a page: nothing without an error, else from an event on that the handler refused
  -- and that was not captured; the world is the one that the handler left.
  abbrev pub Rest : W → W → Option Error → List Envelope → Type 0
  Rest w w' none envs = (envs ≡ []) × (w ≡ w')
  Rest w w' (some e) [] = ⊥
  Rest w w' (some e) (env ∷ envs) =
      (in_shard r env ≡ true) × ((x : Error) × (io.handler env w ≡ (some x, w')) × Stops env x w' e)

  -- A page is done up to a point, and stands as it was from there on.
  pub record Split (page : List Envelope) (from : Pass W) (out : Option Error × Pass W)
      : Type 0 where
    pub finished : List Envelope
    pub rest : List Envelope
    pub mid : W
    pub count : ℕ
    pub parts : page ≡ finished ++ rest
    pub ran : Done finished from.world mid count
    pub cursor : out.1.last ≡ last_position from.last finished
    pub counted : out.1.successes ≡ from.successes + count
    pub stopped : Rest mid out.1.world out.0 rest

  -- One more event in front, which the step from `p` to `q` is done with.
  extend :
      (env : Envelope) (envs : List Envelope) (p q : Pass W) (f : ℕ → ℕ)
      (out : Option Error × Pass W)
      → q.last ≡ env.global_position
      → ((n : ℕ) → q.successes + n ≡ p.successes + f n)
      → ((done : List Envelope) (w : W) (n : ℕ)
          → Done done q.world w n
          → Done (env ∷ done) p.world w (f n))
      → Split envs q out
      → Split (env ∷ envs) p out
  extend env envs p q f out at n step s = record {
    finished = env ∷ s.finished;
    rest = s.rest;
    mid = s.mid;
    count = f s.count;
    parts = ap (◌∷◌ env) s.parts;
    ran = step s.finished s.mid s.count s.ran;
    cursor = s.cursor ∙ ap (λ x. last_position x s.finished) at;
    counted = s.counted ∙ n s.count;
    stopped = s.stopped;
  }

  -- A page that is left at its first event.
  left_at :
      (env : Envelope) (envs : List Envelope) (p : Pass W) (e x : Error) (w : W)
      → in_shard r env ≡ true
      → io.handler env p.world ≡ (some x, w)
      → Stops env x w e
      → Split (env ∷ envs) p (some e, record p { world = w })
  left_at env envs p e x w mine h why = record {
    finished = [];
    rest = env ∷ envs;
    mid = p.world;
    count = 0;
    parts = refl;
    ran = finish;
    cursor = refl;
    counted = omega arith;
    stopped = (mine, (x, h, why));
  }

  module _ (envs : List Envelope) (next : (q : Pass W) → Split envs q (handle_events r io envs q))
      (env : Envelope) (p : Pass W) where
    captured-Split :
        (w : W) (x : Error) (insert : Text → Envelope → Error → W → Result W) (res : Result W)
        → in_shard r env ≡ true
        → io.handler env p.world ≡ (some x, w)
        → r.dlq_on_failure ≡ true
        → io.dead_letters ≡ some insert
        → insert r.name env x w ≡ res
        → Split (env ∷ envs) p (
            unless_stopped r io
              (handle_events r io envs)
              (captured r io env (record p { world = w }) res))
    captured-Split w x insert (err e) mine h on there kept =
        left_at env envs p e x w mine h (store_failed on there kept)
    captured-Split w x insert (ok w') mine h on there kept =
        extend env envs p (record p { last = env.global_position; world = w' }) (λ n. n)
          (handle_events r io envs (record p { last = env.global_position; world = w' })) refl
          (λ n. refl) (λ done u n d. dead_letter mine h on there kept d)
          (next (record p { last = env.global_position; world = w' }))

    refuse-Split :
        (w : W) (x : Error) (on : Bool) (letters : Option (Text → Envelope → Error → W → Result W))
        → in_shard r env ≡ true
        → io.handler env p.world ≡ (some x, w)
        → r.dlq_on_failure ≡ on
        → io.dead_letters ≡ letters
        → Split (env ∷ envs) p (
            unless_stopped r io (handle_events r io envs) (
              if on
              then elim letters [
                | none ↦ (some plain, record p { world = w })
                | some insert ↦ captured r io env (record p { world = w }) (insert r.name env x w)
              ]
              else (some x, record p { world = w })))
    refuse-Split w x false letters mine h on there = left_at env envs p x x w mine h (fail_stop on)
    refuse-Split w x true none mine h on there =
        left_at env envs p plain x w mine h (no_store on there)
    refuse-Split w x true (some insert) mine h on there =
        captured-Split w x insert (insert r.name env x w) mine h on there refl

    handled-Split :
        (out : Option Error × W)
        → in_shard r env ≡ true
        → io.handler env p.world ≡ out
        → Split
            (env ∷ envs)
            p
            (unless_stopped r io (handle_events r io envs) (handled r io env p out))
    unfolding refuse
    handled-Split (none, w) mine h =
        let q : Pass W = record {
          last = env.global_position;
          successes = suc p.successes;
          world = w;
        } in
        extend env envs p q suc (handle_events r io envs q) refl (λ n. omega arith)
          (λ done u n d. handle mine h d) (next q)
    handled-Split (some x, w) mine h =
        refuse-Split w x r.dlq_on_failure io.dead_letters mine h refl refl

    on_shard-Split :
        (b : Bool)
        → in_shard r env ≡ b
        → Split
            (env ∷ envs)
            p
            (unless_stopped r io (handle_events r io envs) (on_shard r io env p b))
    on_shard-Split false h =
        let q : Pass W = record p { last = env.global_position } in
        extend env envs p q (λ n. n) (handle_events r io envs q) refl (λ n. refl)
          (λ done u n d. skip h d) (next q)
    on_shard-Split true h = handled-Split (io.handler env p.world) h refl

  -- The loop of RunOnce handles a first part of the page in order, each event once: an event of
  -- another shard is passed over, one that the handler refuses is captured as a dead letter, and
  -- the last event of that part gives the cursor. The loop stops without an error only at the end
  -- of the page, and with one only at an event of its shard that the handler refused: with the
  -- handler's error if DLQOnFailure is not set, with a plain one if it is set but there is no
  -- dead-letter store, and else with the error with which that store refused the event.
  pub handle_events-Split :
      (page : List Envelope) (p : Pass W) → Split page p (handle_events r io page p)
  unfolding handle_events
  handle_events-Split [] p = record {
    finished = [];
    rest = [];
    mid = p.world;
    count = 0;
    parts = refl;
    ran = finish;
    cursor = refl;
    counted = omega arith;
    stopped = (refl, refl);
  }
  handle_events-Split (env ∷ envs) p =
      on_shard-Split envs (handle_events-Split envs) env p (in_shard r env) refl
