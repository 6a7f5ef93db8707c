-- ===== src/Examples/Delivery.antt =====
-- The thread (TSP/TSP.cpp) as a whole on a day with two orders.
use mathlib.Core.List.Perm
use tsp_simple.Base.{false}
use tsp_simple.Examples.Completion.{steady}
use tsp_simple.Examples.Route.{second_first}
use tsp_simple.Examples.Stubs.{whole, for_vehicles}
use tsp_simple.View.{View, new_view}
use tsp_simple.View.Load.{on_load_delivery_data}
use tsp_simple.View.Setting.{on_set_delivery_data}

abbrev morning : View whole steady second_first
morning = new_view (for_vehicles 1) 0 0 false

abbrev stocked : View whole steady second_first
stocked = (on_set_delivery_data (on_load_delivery_data morning).1).1
