-- ===== src/Projection/Runtime.antt =====
-- projection/runtime.go over the interfaces that it calls. The projector acts on a world that holds
-- the store, the checkpoints and the read model.
use eventstore.Base.{
  ℕ, suc, Bool, true, false, ◌&&◌, Option, none, some, List, [], ◌∷◌, Text, ok, err, ltb, leb, ◌==◌,
  if◌then◌else◌,
}
use eventstore.Es.Error.{Error, Result, plain}
use eventstore.Es.StreamId.{canonical}
use eventstore.Es.Envelope.{Envelope}
use eventstore.Outbox.Backoff.{stream_shard}
use eventstore.Outbox.Drain.{quarantine_key}

-- es.ProjectionLocker.
pub record ProjectionLocker (W : Type 0) : Type 0 where
  pub try_acquire_projection_lock : Text → W → Result (Bool × W)
  pub release_projection_lock : Text → W → W

-- es.Store, Checkpoint and Handler, as far as the projector calls them. `dead_letters` is
-- es.ProjectionDLQWriter, for a store that implements it.
pub record Surroundings (W : Type 0) : Type 0 where
  pub read_all : ℕ → ℕ → W → Result (List Envelope)
  pub read_all_for_tenant : Text → ℕ → ℕ → W → Result (List Envelope)
  pub load : Text → Text → W → Result ℕ
  pub save : Text → Text → ℕ → W → Result W
  pub handler : Envelope → W → Option Error × W
  pub dead_letters : Option (Text → Envelope → Error → W → Result W)
  pub locker : Option (ProjectionLocker W)

-- The fields of the struct Runtime but for those interfaces.
pub record Projector : Type 0 where
  pub name : Text
  pub tenant : Text
  pub batch_size : ℕ
  pub lock_key : Text
  pub shard : ℕ
  pub total_shards : ℕ
  pub dlq_on_failure : Bool

-- The variables of the loop in RunOnce.
pub record Pass (W : Type 0) : Type 0 where
  pub last : ℕ
  pub successes : ℕ
  pub world : W

module _ (r : Projector) where
  -- The method batchSize.
  unfoldable pub page_size : ℕ
  page_size = if r.batch_size == 0 then 100 else r.batch_size

  -- The method validate, for interfaces that are there.
  unfoldable pub validate_projector : Result (Unit {0})
  validate_projector = elim r.name [
    | [] ↦ err plain
    | _ ∷ _ ↦ if ltb 0 r.total_shards && leb r.total_shards r.shard then err plain else ok tt
  ]

  -- The method inShard.
  unfoldable pub in_shard : Envelope → Bool
  in_shard env =
      if r.total_shards == 0
      then true
      else stream_shard (quarantine_key env.tenant_id (canonical env.stream_id)) r.total_shards
        == r.shard

  module _ {W : Type 0} (io : Surroundings W) where
    abbrev pub captured : Envelope → Pass W → Result W → Option Error × Pass W
    captured env p (err e) = (some e, p)
    captured env p (ok w) = (none, record p { last = env.global_position; world = w })

    -- What happens to an event that the handler refused with `e`, in the world that it left.
    unfoldable pub refuse : Envelope → Error → Pass W → Option Error × Pass W
    refuse env e p =
        if r.dlq_on_failure
        then elim io.dead_letters [
          | none ↦ (some plain, p)
          | some insert ↦ captured env p (insert r.name env e p.world)
        ]
        else (some e, p)

    abbrev pub handled : Envelope → Pass W → Option Error × W → Option Error × Pass W
    handled env p (none, w) =
        (none, record { last = env.global_position; successes = suc p.successes; world = w })
    handled env p (some e, w) = refuse env e (record p { world = w })

    abbrev pub on_shard : Envelope → Pass W → Bool → Option Error × Pass W
    on_shard env p false = (none, record p { last = env.global_position })
    on_shard env p true = handled env p (io.handler env p.world)

    abbrev pub unless_stopped :
        (Pass W → Option Error × Pass W) → Option Error × Pass W → Option Error × Pass W
    unless_stopped next (some e, p) = (some e, p)
    unless_stopped next (none, p) = next p

    -- The loop of RunOnce.
    unfoldable pub handle_events : List Envelope → Pass W → Option Error × Pass W
    handle_events [] p = (none, p)
    handle_events (env ∷ envs) p =
        unless_stopped (handle_events envs) (on_shard env p (in_shard env))

    -- The end of RunOnce: what it returns, its error, and the world.
    unfoldable pub save_last : Option Error × Pass W → (ℕ × Option Error) × W
    save_last (e, p) =
        if ltb 0 p.last
        then elim (io.save r.name r.tenant p.last p.world) [
          | err x ↦ ((p.successes, some x), p.world)
          | ok w ↦ ((p.successes, e), w)
        ]
        else ((p.successes, e), p.world)

    abbrev pub nothing : Option Error → W → (ℕ × Option Error) × W
    nothing e w = ((0, e), w)

    abbrev pub opening_pass : W → Pass W
    opening_pass w = record { last = 0; successes = 0; world = w }

    abbrev pub on_page : W → Result (List Envelope) → (ℕ × Option Error) × W
    on_page w (err e) = nothing (some e) w
    on_page w (ok []) = nothing none w
    on_page w (ok (env ∷ envs)) = save_last (handle_events (env ∷ envs) (opening_pass w))

    unfoldable pub read_page : ℕ → W → Result (List Envelope)
    read_page cursor w = elim r.tenant [
      | [] ↦ io.read_all cursor page_size w
      | _ ∷ _ ↦ io.read_all_for_tenant r.tenant cursor page_size w
    ]

    -- RunOnce, while the lock is held.
    unfoldable pub project_batch : W → (ℕ × Option Error) × W
    project_batch w = elim (io.load r.name r.tenant w) [
      | err e ↦ nothing (some e) w
      | ok cursor ↦ on_page w (read_page cursor w)
    ]

    -- acquireLock, the batch, and the deferred release.
    unfoldable pub lock_batch : W → (ℕ × Option Error) × W
    lock_batch w = elim r.lock_key [
      | [] ↦ project_batch w
      | _ ∷ _ ↦ elim io.locker [
        | none ↦ project_batch w
        | some l ↦ elim (l.try_acquire_projection_lock r.lock_key w) [
          | err e ↦ nothing (some e) w
          | ok (false, w') ↦ nothing none w'
          | ok (true, w') ↦
              let out = project_batch w' in (out.0, l.release_projection_lock r.lock_key out.1)
        ]
      ]
    ]

    -- The method RunOnce.
    unfoldable pub project_once : W → (ℕ × Option Error) × W
    project_once w = elim validate_projector [ err e ↦ nothing (some e) w | ok _ ↦ lock_batch w ]
