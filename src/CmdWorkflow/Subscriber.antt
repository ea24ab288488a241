-- ===== src/CmdWorkflow/Subscriber.antt =====
-- cmdworkflow/subscriber.go, and Register and With of cmdworkflow/bus.go.
use eventstore.Base.{
  ℕ, Bool, true, false, not, ◌&&◌, ◌||◌, Option, none, some, List, [], ◌∷◌, ◌++◌, Text, text_eq,
  any_row, if◌then◌else◌,
}
use eventstore.Es.Error.{Result}
use eventstore.Es.StreamId.{canonical}
use eventstore.Es.Envelope.{Envelope}
use eventstore.CmdWorkflow.Act.{Done}

-- A Go int: `negsuc n` is -(n + 1).
pub data ℤ : Type 0 where
  pos negsuc : ℕ → ℤ

-- A context, as far as the bus uses it: the value of stepPrefixKey and the duration of the
-- WithTimeout around the call, if there is one.
pub record Context : Type 0 where
  pub step_prefix : Text
  pub timeout : Option ℕ

-- A mode or policy of another number than the constants is `other_mode` or `other_policy`.
pub data DeliveryMode : Type 0 where
  sync async : DeliveryMode
  other_mode : ℕ → DeliveryMode

pub data ExhaustedPolicy : Type 0 where
  dlq_policy compensate_policy drop_policy : ExhaustedPolicy
  other_policy : ℕ → ExhaustedPolicy

pub record EventFilter : Type 0 where
  pub type_urls : List Text
  pub stream_glob : Text
  pub tenants : List Text
  pub custom : Option (Envelope → Bool)

abbrev contains : List Text → Text → Bool
contains xs t = any_row (λ x. text_eq x t) xs

abbrev pub is_empty : {A : Type 0} → List A → Bool
is_empty [] = true
is_empty (_ ∷ _) = false

abbrev passes_custom : Option (Envelope → Bool) → Envelope → Bool
passes_custom none env = true
passes_custom (some f) env = f env

-- Matches; `path_match` is path.Match, false on a malformed pattern.
unfoldable pub matches : (Text → Text → Bool) → EventFilter → Envelope → Bool
unfolding any_row
matches path_match f env =
    if not (is_empty f.type_urls) && not (contains f.type_urls env.type_url)
    then false
    else if not (is_empty f.tenants) && not (contains f.tenants env.tenant_id)
    then false
    else if not (is_empty f.stream_glob) && not (path_match f.stream_glob (canonical env.stream_id))
    then false
    else passes_custom f.custom env

-- A nil function is none. A duration below 0 counts as 0.
pub record Subscriber (S C E D : Type 0) : Type 0 where
  pub name : Text
  pub filter : EventFilter
  pub mode : DeliveryMode
  pub max_retries : ℤ
  pub on_exhausted : ExhaustedPolicy
  pub attempt_timeout : ℕ
  pub handle : Option (Context → List Envelope → S → List E → D → Result Done × D)
  pub compensate : Option (Context → List Envelope → S → List E → D → Result C × D)

abbrev pub is_compensate : ExhaustedPolicy → Bool
is_compensate compensate_policy = true
is_compensate _ = false

abbrev pub is_async : DeliveryMode → Bool
is_async async = true
is_async _ = false

abbrev pub is_none : {A : Type 0} → Option A → Bool
is_none none = true
is_none (some _) = false

abbrev pub unless_panic : {A : Type 0} → Option A → (A → Option A) → Option A
unless_panic none f = none
unless_panic (some x) f = f x

module _ {S C E D : Type 0} where
  -- The guards of Register, each of which panics.
  unfoldable pub refused : List (Subscriber S C E D) → Subscriber S C E D → Bool
  unfolding any_row
  refused subscribers s =
      is_empty s.name
      || (is_none s.handle
          || ((is_compensate s.on_exhausted && is_none s.compensate)
              || ((is_async s.mode && is_compensate s.on_exhausted)
                  || any_row (λ (x : Subscriber S C E D). text_eq x.name s.name) subscribers)))

  -- The method Register; none is its panic.
  unfoldable pub register :
      List (Subscriber S C E D) → Subscriber S C E D → Option (List (Subscriber S C E D))
  unfolding refused
  register subscribers s = if refused subscribers s then none else some (subscribers ++ (s ∷ []))

  -- The method With.
  unfoldable pub with_subs :
      List (Subscriber S C E D) → List (Subscriber S C E D) → Option (List (Subscriber S C E D))
  with_subs subscribers [] = some subscribers
  with_subs subscribers (s ∷ subs) =
      unless_panic (register subscribers s) (λ more. with_subs more subs)
