-- ===== src/Projection/Dedup.antt =====
-- projection/dedup.go: a handler that passes over the events which it has processed before.
use eventstore.Base.{arith, ◌≡◌, refl, Bool, true, false, Option, none, some, Text, ok, err}
use eventstore.Es.Error.{Error, Result}
use eventstore.Es.Envelope.{Envelope, Uuid}

-- DedupStore, as far as WithDedup calls it.
pub record DedupStore (W : Type 0) : Type 0 where
  pub has_processed_event : Text → Text → Uuid → W → Result Bool
  pub mark_processed_event : Text → Text → Uuid → W → Result W

module _ {W : Type 0} (inner : Envelope → W → Option Error × W) (store : DedupStore W)
    (name : Text) where
  abbrev pub marked : W → Result W → Option Error × W
  marked w (err e) = (some e, w)
  marked w (ok w') = (none, w')

  abbrev pub mark_after : Envelope → Option Error × W → Option Error × W
  mark_after env (some e, w) = (some e, w)
  mark_after env (none, w) = marked w (store.mark_processed_event name env.tenant_id env.event_id w)

  abbrev pub unless_seen : Envelope → W → Result Bool → Option Error × W
  unless_seen env w (err e) = (some e, w)
  unless_seen env w (ok true) = (none, w)
  unless_seen env w (ok false) = mark_after env (inner env w)

  -- WithDedup.
  unfoldable pub with_dedup : Envelope → W → Option Error × W
  with_dedup env w = unless_seen env w (store.has_processed_event name env.tenant_id env.event_id w)

  -- An event that was marked is seen from then on.
  abbrev pub Remembers : Type 0
  Remembers =
      (t : Text) (id : Uuid) (w w' : W)
      → store.mark_processed_event name t id w ≡ ok w'
      → store.has_processed_event name t id w' ≡ ok true

  -- The event counts as processed in the world that a call left.
  abbrev Seen : Envelope → Option Error × W → Type 0
  Seen env out =
      out.0 ≡ none → store.has_processed_event name env.tenant_id env.event_id out.1 ≡ ok true

  module _ (law : Remembers) where
    marked-Seen :
        (env : Envelope) (w : W) (res : Result W)
        → store.mark_processed_event name env.tenant_id env.event_id w ≡ res
        → Seen env (marked w res)
    marked-Seen env w (err e) h = λ k. absurd (ground arith)
    marked-Seen env w (ok w') h = λ k. law env.tenant_id env.event_id w w' h

    mark_after-Seen : (env : Envelope) (out : Option Error × W) → Seen env (mark_after env out)
    mark_after-Seen env (some e, w) = λ k. absurd (ground arith)
    mark_after-Seen env (none, w) =
        marked-Seen env w (store.mark_processed_event name env.tenant_id env.event_id w) refl

    unless_seen-Seen :
        (env : Envelope) (w : W) (res : Result Bool)
        → store.has_processed_event name env.tenant_id env.event_id w ≡ res
        → Seen env (unless_seen env w res)
    unless_seen-Seen env w (err e) h = λ k. absurd (ground arith)
    unless_seen-Seen env w (ok true) h = λ k. h
    unless_seen-Seen env w (ok false) h = mark_after-Seen env (inner env w)

    -- Once a call for an event succeeded, a second call for it in the world that the first one left
    -- succeeds and does nothing, if the store sees from then on what was marked in it.
    pub with_dedup-twice :
        (env : Envelope) (w w' : W) → with_dedup env w ≡ (none, w') → with_dedup env w' ≡ (none, w')
    unfolding with_dedup
    with_dedup-twice env w w' h =
        let seen =
          unless_seen-Seen env w (store.has_processed_event name env.tenant_id env.event_id w)
            refl in
        let out = rw h at seen in rw (out refl) refl
