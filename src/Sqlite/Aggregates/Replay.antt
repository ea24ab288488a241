-- ===== src/Sqlite/Aggregates/Replay.antt =====
-- The loop of Load in aggregate/runtime.go, over what the abstract log keeps of the events.
use eventstore.Base.{◌≡◌, refl, ap, List, [], ◌∷◌, ◌++◌, map, ok, err, ◌>>=◌, bind-ok}
use eventstore.Es.Error.{Result}
use eventstore.Es.StreamId.{StreamId}
use eventstore.Es.Envelope.{Envelope}
use eventstore.Aggregate.Runtime.{Runtime, Loaded, replay, replay_event, decrypt_event}
use eventstore.Sqlite.EventLog.{Recorded, view}

module _ {S C E : Type 0} (rt : Runtime S C E) (sid : StreamId) where
  -- Load's loop needs no more of an envelope than its view.
  unfoldable pub fold_event : Loaded S → Recorded → Result (Loaded S)
  fold_event l x = do
    evt ← rt.codec.decode x.event.type_url x.event.schema_version x.event.payload
    plain' ← decrypt_event rt sid evt
    ok (record {
      state = rt.decider.evolve l.state plain'.0;
      version = x.version;
      redacted = l.redacted ++ plain'.1;
    })

  unfoldable pub fold_events : Loaded S → List Recorded → Result (Loaded S)
  fold_events l [] = ok l
  fold_events l (x ∷ xs) = do l' ← fold_event l x; fold_events l' xs

  bind_same :
      (r : Result (Loaded S)) (f g : Loaded S → Result (Loaded S))
      → ((l : Loaded S) → f l ≡ g l)
      → (r >>= f) ≡ (r >>= g)
  bind_same (ok l) f g h = h l
  bind_same (err e) f g h = refl

  pub replay-fold_events :
      (l : Loaded S) (envs : List Envelope) → replay rt sid l envs ≡ fold_events l (map view envs)
  unfolding replay fold_events replay_event fold_event
  replay-fold_events l [] = refl
  replay-fold_events l (e ∷ es) =
      bind_same (fold_event l (view e)) (λ m. replay rt sid m es) (λ m. fold_events m (map view es))
        (λ m. replay-fold_events m es)

  pub fold_events-append :
      (l m : Loaded S) (xs ys : List Recorded)
      → fold_events l xs ≡ ok m
      → fold_events l (xs ++ ys) ≡ fold_events m ys
  unfolding fold_events
  fold_events-append l m [] ys h = let same : l ≡ m = cc in ap (λ n. fold_events n ys) same
  fold_events-append l m (x ∷ xs) ys h =
      let (n, e, rest) = bind-ok (fold_event l x) (λ n. fold_events n xs) h in
      rw e (fold_events-append n m xs ys rest)
