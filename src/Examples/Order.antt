-- ===== src/Examples/Order.antt =====
-- OrderDecider of examples/orderfulfillment/decider.go. The domain errors are foreign to es/.
use eventstore.Base.{
  ℕ, ◌+◌, ◌≡◌, refl, Bool, true, false, some, List, [], ◌∷◌, Text, ok, err, arith,
}
use eventstore.Es.Error.{Error, Result, foreign}
use eventstore.Es.Envelope.{ConstraintOp}
use eventstore.Aggregate.Runtime.{Decider}

abbrev pub order_already_placed : Error
order_already_placed = foreign 1

abbrev pub order_not_placed : Error
order_not_placed = foreign 2

abbrev pub order_already_shipped : Error
order_already_shipped = foreign 3

abbrev pub order_not_shipped : Error
order_not_shipped = foreign 4

pub data Status : Type 0 where
  unspecified placed shipped completed : Status

pub record Order : Type 0 where
  pub order_id : Text
  pub customer_id : Text
  pub warehouse : Text
  pub status : Status
  pub placed_at_ms : ℕ
  pub shipped_at_ms : ℕ
  pub carrier : Text
  pub tracking : Text

-- The fields of a command in the order of the protobuf messages; the times come last.
pub data OrderCommand : Type 0 where
  place_order : Text → Text → Text → ℕ → OrderCommand
  ship : Text → Text → ℕ → OrderCommand
  complete : ℕ → OrderCommand

-- OrderPlaced, OrderShipped (id, warehouse, carrier, tracking, time) and OrderCompleted.
pub data OrderEvent : Type 0 where
  order_placed : Text → Text → Text → ℕ → OrderEvent
  order_shipped : Text → Text → Text → Text → ℕ → OrderEvent
  order_completed : ℕ → OrderEvent

abbrev pub no_order : Order
no_order = record {
  order_id = [];
  customer_id = [];
  warehouse = [];
  status = unspecified;
  placed_at_ms = 0;
  shipped_at_ms = 0;
  carrier = [];
  tracking = [];
}

abbrev Decided : Type 0
Decided = Result (List OrderEvent × List ConstraintOp)

abbrev decide_place : Text → Text → Text → ℕ → Text → Decided
decide_place id customer warehouse at [] = ok (order_placed id customer warehouse at ∷ [], [])
decide_place id customer warehouse at (b ∷ known) = err order_already_placed

abbrev decide_ship : Order → Text → Text → ℕ → Text → Status → Decided
decide_ship s carrier tracking at [] status = err order_not_placed
decide_ship s carrier tracking at (b ∷ known) placed =
    ok (order_shipped s.order_id s.warehouse carrier tracking at ∷ [], [])
decide_ship s carrier tracking at (b ∷ known) _ = err order_already_shipped

abbrev decide_complete : ℕ → Status → Decided
decide_complete at shipped = ok (order_completed at ∷ [], [])
decide_complete at _ = err order_not_shipped

-- The field Decide.
unfoldable pub decide_order : Order → OrderCommand → Decided
decide_order s (place_order id customer warehouse at) =
    decide_place id customer warehouse at s.order_id
decide_order s (ship carrier tracking at) = decide_ship s carrier tracking at s.order_id s.status
decide_order s (complete at) = decide_complete at s.status

-- The field Evolve.
unfoldable pub evolve_order : Order → OrderEvent → Order
evolve_order s (order_placed id customer warehouse at) = record s {
  order_id = id;
  customer_id = customer;
  warehouse = warehouse;
  placed_at_ms = at;
  status = placed;
}
evolve_order s (order_shipped id warehouse carrier tracking at) = record s {
  status = shipped;
  carrier = carrier;
  tracking = tracking;
  shipped_at_ms = at;
}
evolve_order s (order_completed at) = record s { status = completed }

abbrev is_completed : Status → Bool
is_completed completed = true
is_completed _ = false

abbrev pub order_decider : Decider Order OrderCommand OrderEvent
order_decider = record {
  initial = no_order;
  decide = decide_order;
  evolve = evolve_order;
  is_terminal = some (λ s. is_completed s.status);
}

-- How far an order has come.
abbrev pub stage : Status → ℕ
stage unspecified = 0
stage placed = 1
stage shipped = 2
stage completed = 3

-- An order has an id exactly once it was placed.
abbrev StartedAs : Text → Status → Type 0
StartedAs [] unspecified = Unit
StartedAs [] _ = ⊥
StartedAs (b ∷ id) unspecified = ⊥
StartedAs (b ∷ id) _ = Unit

abbrev pub IsOrder : Order → Type 0
IsOrder s = StartedAs s.order_id s.status

-- A command to place an order names it.
abbrev pub IsNamed : OrderCommand → Type 0
IsNamed (place_order [] customer warehouse at) = ⊥
IsNamed _ = Unit

-- Where an accepted command leads.
abbrev pub Advanced : Order → List OrderEvent × List ConstraintOp → Type 0
Advanced s out =
    (e : OrderEvent) × ((out ≡ (e ∷ [], []))
      × (stage (evolve_order s e).status ≡ stage s.status + 1)
      × IsOrder (evolve_order s e))

place-Advanced :
    (id customer warehouse : Text) (at : ℕ) (id' : Text) (st : Status)
    (out : List OrderEvent × List ConstraintOp)
    → StartedAs id' st
    → IsNamed (place_order id customer warehouse at)
    → decide_place id customer warehouse at id' ≡ ok out
    → (out ≡ (order_placed id customer warehouse at ∷ [], []))
      × (1 ≡ stage st + 1)
      × StartedAs id placed
place-Advanced [] customer warehouse at id' st out k n h = absurd n
place-Advanced (b ∷ id) customer warehouse at [] unspecified out k n h = (cc, refl, tt)
place-Advanced (b ∷ id) customer warehouse at [] placed out k n h = absurd k
place-Advanced (b ∷ id) customer warehouse at [] shipped out k n h = absurd k
place-Advanced (b ∷ id) customer warehouse at [] completed out k n h = absurd k
place-Advanced (b ∷ id) customer warehouse at (x ∷ id') st out k n h = absurd (ground arith)

ship-Advanced :
    (s : Order) (carrier tracking : Text) (at : ℕ) (id' : Text) (st : Status)
    (out : List OrderEvent × List ConstraintOp)
    → decide_ship s carrier tracking at id' st ≡ ok out
    → (out ≡ (order_shipped s.order_id s.warehouse carrier tracking at ∷ [], []))
      × (2 ≡ stage st + 1)
      × StartedAs id' shipped
ship-Advanced s carrier tracking at [] st out h = absurd (ground arith)
ship-Advanced s carrier tracking at (x ∷ id') placed out h = (cc, refl, tt)
ship-Advanced s carrier tracking at (x ∷ id') unspecified out h = absurd (ground arith)
ship-Advanced s carrier tracking at (x ∷ id') shipped out h = absurd (ground arith)
ship-Advanced s carrier tracking at (x ∷ id') completed out h = absurd (ground arith)

complete-Advanced :
    (at : ℕ) (id' : Text) (st : Status) (out : List OrderEvent × List ConstraintOp)
    → StartedAs id' st
    → decide_complete at st ≡ ok out
    → (out ≡ (order_completed at ∷ [], [])) × (3 ≡ stage st + 1) × StartedAs id' completed
complete-Advanced at (x ∷ id') shipped out k h = (cc, refl, tt)
complete-Advanced at [] shipped out k h = absurd k
complete-Advanced at id' unspecified out k h = absurd (ground arith)
complete-Advanced at id' placed out k h = absurd (ground arith)
complete-Advanced at id' completed out k h = absurd (ground arith)

-- A command that the decider accepts yields one event and no constraint, and that event takes the
-- order one stage further, from nothing over placed and shipped to completed, if the order has an
-- id exactly once it was placed and a command to place one carries an id; the order then still has
-- an id exactly once it was placed.
pub decide_order-Advanced :
    (s : Order) (c : OrderCommand) (out : List OrderEvent × List ConstraintOp)
    → IsOrder s
    → IsNamed c
    → decide_order s c ≡ ok out
    → Advanced s out
unfolding decide_order evolve_order
decide_order-Advanced s (place_order id customer warehouse at) out known named h = (
  order_placed id customer warehouse at,
  place-Advanced id customer warehouse at s.order_id s.status out known named h,
)
decide_order-Advanced s (ship carrier tracking at) out known named h = (
  order_shipped s.order_id s.warehouse carrier tracking at,
  ship-Advanced s carrier tracking at s.order_id s.status out h,
)
decide_order-Advanced s (complete at) out known named h =
    (order_completed at, complete-Advanced at s.order_id s.status out known h)
