-- ===== src/Examples/Keys.antt =====
-- models.rs (`User`) and util/order_utils/bond_resolution.rs on concrete inputs.
use mostrix.Prelude.{◌≡◌, refl, none, List, [], ◌∷◌}
use mostrix.TradeIndex.{
  IndexOp, reserve, raise, reserved, reserved-Ascending, Ascending, reserve_next_trade_index,
  update_last_trade_index,
}

abbrev index_ops : List IndexOp
index_ops = reserve 1 ∷ raise 7 ∷ reserve 0 ∷ reserve 1 ∷ []

reserved_test : reserved index_ops none ≡ 2 ∷ 8 ∷ 9 ∷ []
unfolding reserved reserve_next_trade_index update_last_trade_index
reserved_test = refl

reserved-Ascending_example : Ascending 0 (reserved index_ops none)
reserved-Ascending_example = reserved-Ascending index_ops none
