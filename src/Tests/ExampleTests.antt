-- ===== src/Tests/ExampleTests.antt =====
-- examples/: an order that is shipped.
use eventstore.Base.{◌≡◌, refl, text, [], ◌∷◌, ok}
use eventstore.Examples.Order.{
  Order, placed, ship, order_shipped, decide_order, Advanced, decide_order-Advanced,
}

abbrev order : Order
order = record {
  order_id = text "o-1";
  customer_id = text "c";
  warehouse = text "w";
  status = placed;
  placed_at_ms = 5;
  shipped_at_ms = 0;
  carrier = [];
  tracking = [];
}

order_ships :
    decide_order order (ship (text "dhl") (text "t") 9)
    ≡ ok (order_shipped (text "o-1") (text "w") (text "dhl") (text "t") 9 ∷ [], [])
unfolding decide_order
order_ships = refl

decide_order-Advanced_example :
    Advanced order (order_shipped (text "o-1") (text "w") (text "dhl") (text "t") 9 ∷ [], [])
decide_order-Advanced_example =
    decide_order-Advanced order (ship (text "dhl") (text "t") 9)
      (order_shipped (text "o-1") (text "w") (text "dhl") (text "t") 9 ∷ [], []) tt tt order_ships
