-- ===== src/CmdWorkflow/Futures.antt =====
-- The Sync subscribers of one HandleCmd in cmdworkflow/bus.go, from their start to the loop over
-- Future.Wait.
use eventstore.Base.{List, [], ◌∷◌, Text, ok, ◌>>=◌}
use eventstore.Es.Error.{Error, Result}
use eventstore.Es.Envelope.{Envelope}
use eventstore.CmdWorkflow.Codec.{Library}
use eventstore.CmdWorkflow.Subscriber.{Subscriber}

-- A Sync subscriber that was started, with what its Future returns.
pub record SyncEntry (S C E D : Type 0) : Type 0 where
  pub sub : Subscriber S C E D
  pub envs : List Envelope
  pub events : List E
  pub outcome : Result Text

pub record Exhausted (S C E D : Type 0) : Type 0 where
  pub entry : SyncEntry S C E D
  pub error : Error

module _ {S C E D : Type 0} (lib : Library) where
  -- Bytes stand for an exhausted subscriber.
  abbrev pub exhausted_by :
      SyncEntry S C E D → Text → List (Exhausted S C E D) → List (Exhausted S C E D)
  exhausted_by s [] more = more
  exhausted_by s (c ∷ cs) more = record { entry = s; error = lib.new_error (c ∷ cs) } ∷ more

  unfoldable pub wait_all : List (SyncEntry S C E D) → Result (List (Exhausted S C E D))
  wait_all [] = ok []
  wait_all (s ∷ syncs) = do raw ← s.outcome; more ← wait_all syncs; ok (exhausted_by s raw more)
