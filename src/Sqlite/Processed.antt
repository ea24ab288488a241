-- ===== src/Sqlite/Processed.antt =====
-- adapters/storage/sqlite/dedup.go with its queries in internal/db/processed_events.sql.go, under the
-- handler of projection/dedup.go. The statements succeed.
use eventstore.Base.{
  ◌≡◌, refl, sym, ap, ◌∙◌, Bool, true, false, ◌&&◌, Option, none, some, List, [], ◌∷◌, ◌++◌, Text,
  text_eq, text_eq_refl, ok, arith, any_row, any_row-append, if◌then◌else◌,
}
use eventstore.Es.Error.{Error}
use eventstore.Es.Envelope.{Envelope, Uuid}
use eventstore.Projection.Dedup.{DedupStore, with_dedup, unless_seen, mark_after}

pub record ProcessedRow : Type 0 where
  pub projection_name : Text
  pub tenant_id : Text
  pub event_id : Uuid
  pub processed_at : Text

abbrev pub Processed : Type 0
Processed = List ProcessedRow

abbrev is_processed : Text → Text → Uuid → ProcessedRow → Bool
is_processed name tenant id r =
    text_eq r.projection_name name && (text_eq r.tenant_id tenant && text_eq r.event_id id)

-- The query HasProcessedEvent.
unfoldable pub has_processed : Text → Text → Uuid → Processed → Bool
unfolding any_row
has_processed name tenant id t = any_row (is_processed name tenant id) t

-- The query MarkProcessedEvent.
unfoldable pub mark_processed : Text → Text → Uuid → Text → Processed → Processed
unfolding has_processed
mark_processed name tenant id now t =
    if has_processed name tenant id t
    then t
    else t
      ++ (record { projection_name = name; tenant_id = tenant; event_id = id; processed_at = now }
          ∷ [])

-- The adapter as a DedupStore, beside a read model.
abbrev pub sqlite_dedup : {M : Type 0} → Text → DedupStore (M × Processed)
sqlite_dedup now = record {
  has_processed_event = λ name tenant id w. ok (has_processed name tenant id w.1);
  mark_processed_event = λ name tenant id w. ok (w.0, mark_processed name tenant id now w.1);
}

mark_processed-marks :
    (name tenant : Text) (id : Uuid) (now : Text) (t : Processed)
    → has_processed name tenant id (mark_processed name tenant id now t) ≡ true
unfolding has_processed mark_processed any_row
mark_processed-marks name tenant id now t = ground (
  arith,
  text_eq_refl name,
  text_eq_refl tenant,
  text_eq_refl id,
  any_row-append (is_processed name tenant id) t (
      record { projection_name = name; tenant_id = tenant; event_id = id; processed_at = now }
      ∷ []),
)

mark_processed-keeps :
    (name tenant : Text) (id : Uuid) (name' tenant' : Text) (id' : Uuid) (now : Text)
    (t : Processed)
    → has_processed name tenant id t ≡ true
    → has_processed name tenant id (mark_processed name' tenant' id' now t) ≡ true
unfolding has_processed mark_processed any_row
mark_processed-keeps name tenant id name' tenant' id' now t h = ground (
  arith,
  any_row-append (is_processed name tenant id) t (
      record { projection_name = name'; tenant_id = tenant'; event_id = id'; processed_at = now }
      ∷ []),
)

module _ {M : Type 0} (inner : Envelope → M → Option Error × M) (name now : Text) where
  -- A handler that acts on the read model.
  abbrev pub on_model : Envelope → M × Processed → Option Error × (M × Processed)
  on_model env w = let out = inner env w.0 in (out.0, (out.1, w.1))

  abbrev pub then_deliver :
      (M × Processed → Option Error × (M × Processed))
      → Option Error × (M × Processed)
      → Option Error × (M × Processed)
  then_deliver rest (some e, w) = (some e, w)
  then_deliver rest (none, w) = rest w

  -- A page of events handed to the handler of WithDedup, up to the first that fails.
  unfoldable pub deliver_all : List Envelope → M × Processed → Option Error × (M × Processed)
  deliver_all [] w = (none, w)
  deliver_all (env ∷ envs) w =
      then_deliver (deliver_all envs) (with_dedup on_model (sqlite_dedup now) name env w)

  abbrev Sees : Envelope → M × Processed → Type 0
  Sees env w = has_processed name env.tenant_id env.event_id w.1 ≡ true

  -- What a call that succeeded leaves marked.
  abbrev Marks : Envelope → M × Processed → Option Error × (M × Processed) → Type 0
  Marks env w (some e, w') = Unit
  Marks env w (none, w') = Sees env w' × ((x : Envelope) → Sees x w → Sees x w')

  mark_after-Marks :
      (env : Envelope) (w : M × Processed) (out : Option Error × M)
      → Marks env w (mark_after on_model (sqlite_dedup now) name env (out.0, (out.1, w.1)))
  mark_after-Marks env w (some e, m) = tt
  mark_after-Marks env w (none, m) = (
    mark_processed-marks name env.tenant_id env.event_id now w.1,
    λ x h.
        mark_processed-keeps name x.tenant_id x.event_id name env.tenant_id env.event_id now w.1 h,
  )

  unless_seen-Marks :
      (env : Envelope) (w : M × Processed) (b : Bool)
      → has_processed name env.tenant_id env.event_id w.1 ≡ b
      → Marks env w (unless_seen on_model (sqlite_dedup now) name env w (ok b))
  unless_seen-Marks env w true h = (h, λ x k. k)
  unless_seen-Marks env w false h = mark_after-Marks env w (inner env w.0)

  with_dedup-Marks :
      (env : Envelope) (w : M × Processed)
      → Marks env w (with_dedup on_model (sqlite_dedup now) name env w)
  unfolding with_dedup
  with_dedup-Marks env w =
      unless_seen-Marks env w (has_processed name env.tenant_id env.event_id w.1) refl

  abbrev AllSeen : List Envelope → M × Processed → Type 0
  AllSeen [] w = Unit
  AllSeen (env ∷ envs) w = Sees env w × AllSeen envs w

  deliver_all-AllSeen :
      (envs : List Envelope) (w w' : M × Processed)
      → deliver_all envs w ≡ (none, w')
      → AllSeen envs w' × ((x : Envelope) → Sees x w → Sees x w')
  unfolding deliver_all
  deliver_all-AllSeen [] w w' h =
      let still : w ≡ w' = cc h in
      (
        tt,
        λ x k.
            ap (λ (z : M × Processed). has_processed name x.tenant_id x.event_id z.1) (sym still)
            ∙ k,
      )
  deliver_all-AllSeen (env ∷ envs) w w' h =
      delivered (with_dedup on_model (sqlite_dedup now) name env w) (with_dedup-Marks env w) h
        (λ w₁ k. deliver_all-AllSeen envs w₁ w' k)
    where
      delivered :
          (out : Option Error × (M × Processed))
          → Marks env w out
          → then_deliver (deliver_all envs) out ≡ (none, w')
          → ((w₁ : M × Processed)
              → deliver_all envs w₁ ≡ (none, w')
              → AllSeen envs w' × ((x : Envelope) → Sees x w₁ → Sees x w'))
          → AllSeen (env ∷ envs) w' × ((x : Envelope) → Sees x w → Sees x w')
      delivered (some e, w₁) m k rest = absurd (ground arith)
      delivered (none, w₁) (seen, keeps) k rest =
          let (all, mono) = rest w₁ k in ((mono env seen, all), λ x s. mono x (keeps x s))

  AllSeen-deliver_all :
      (envs : List Envelope) (w : M × Processed) → AllSeen envs w → deliver_all envs w ≡ (none, w)
  unfolding deliver_all with_dedup
  AllSeen-deliver_all [] w h = refl
  AllSeen-deliver_all (env ∷ envs) w (seen, h) =
      ap
        (λ b.
          then_deliver (deliver_all envs)
            (unless_seen on_model (sqlite_dedup now) name env w (ok b)))
        seen
      ∙ AllSeen-deliver_all envs w h

  -- Over the processed_events table of the sqlite adapter and a handler that acts on the read model,
  -- once a page of events was delivered without an error, delivering the same page again succeeds
  -- and changes neither the read model nor the table.
  pub deliver_all-again :
      (envs : List Envelope) (w w' : M × Processed)
      → deliver_all envs w ≡ (none, w')
      → deliver_all envs w' ≡ (none, w')
  deliver_all-again envs w w' h = AllSeen-deliver_all envs w' (deliver_all-AllSeen envs w w' h).0
