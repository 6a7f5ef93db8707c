-- ===== src/Lib.antt =====
-- tspSimple: the route of a delivery vehicle, found by a genetic algorithm.
--
-- The program reads the orders of a day for one vehicle from a MySQL database, together with the
-- distances between any two of their addresses, lets a genetic algorithm search for a short round
-- trip, turns the trip so that it begins at the depot, and writes its legs back to the database. The
-- thread `t_function` (TSP/TSP.cpp) runs these steps, the methods of the one object `TSPView`
-- (TSP/TspView.cpp, TSP/TspView.h). They work on the store of cities `TspCities` (TSP/TspCity.cpp,
-- TSP/TspCity.h) and on the algorithm's operators (TSP/TspAlgorithm.cpp, TSP/TspAlgorithm.h).
--
-- The modules:
--   Base        numbers, lists and Boolean tests that the others share
--   Text        C strings: `strcpy`, `sprintf` and `atoi` with the sizes of the buffers, and the
--               conversions between `string` and `wstring`; `Text.Conversion` is
--               `Utf8StringToWString`, `Text.Formats` is how much room `sprintf` needs, and
--               `Text.Reading` which statements only read
--   External    parameters: floating-point numbers, the MySQL client, the random numbers and the
--               engine of the genetic-algorithm library
--   City        TSP/TspCity.h and TSP/TspCity.cpp. `Cities` is `TspCity::_nextId`, the allocated
--               cities (`heap`), and the hash map `_cities` (`entries`). Each method is a function of
--               its name, as `remove_city` for `RemoveCity`. `City.Contract` has the finite map
--               that the store stands for, `City.Location` the table of `locationInitialize`.
--   Chromosome  TSP/TspAlgorithm.cpp: `MakeNewFromPrototype`, `GetCityPosition`, the crossover and the
--               fitness. A chromosome is the list of its pointers to cities.
--   View        TSP/TspView.cpp. `View` is the object with the statics it uses. `View.Load` is step 1,
--               `View.Setting` step 2, `View.Search` step 3 with the observer and `TSP::smartInit`,
--               `View.Relocation` step 4, `View.Calc` step 5 with its loops in `View.Balance`,
--               `View.Research` step 6 with `routeBestSearch`, `View.VehicleRelocation` step 7, and
--               `View.Insert` step 8. `View.Monad` has the actions that the steps are made of,
--               `View.Runs` conditions before and after an action that may end early, `View.Ends` and
--               `View.Reaches` actions that come to their end, on a server that answers (`IsServing`),
--               and `View.Buffers` the buffers they need.
--   Program     TSP/TSP.cpp: `t_function` and the arguments of `main`. `Program.Tours` composes steps
--               1 and 2 with the operators of the algorithm, `Program.Route` steps 1 to 4, and
--               `Program.Complete` all steps of the thread. `Program.Main`
--               is `main`, which crashes before its thread or runs it, with the constructor of `TSP` (TSP/TspAlgorithm.cpp), `Program.Connection` the
--               test of the connection.
--   Examples    the theorems at concrete inputs
--
-- A pointer to a city is a number: 0 is NULL, and `suc k` is the cell `k` of the heap, empty once the
-- city has been deleted. What C++ leaves undefined (an access out of bounds, a null or dangling
-- pointer, a buffer that is too short) is `none`, or `fault` in the body of a step; a step then
-- counts as `crashed`. A step is an action on the view that ends with its return value. The view
-- records the statements it sent to the server.
--
-- What a step needs of the database is a condition on the replies to its statements, those of steps 1 and 5
-- as long as the database is only read (`IsReading` in `Text.Reading`), those of step 8 as long as that
-- step alone writes to it (`IsAsked`). The conditions are (`IsDay` in
-- `View.Load.Answers`, `IsSchema` in `View.Insert.Answers`, `IsPaid` in `View.Calc.Answers`): which
-- rows there are, that no column is NULL or longer than the array for it, and for step 5 how large the
-- amounts are.
--
-- Steps 5 to 7 divide the route among several vehicles; `t_function` has them commented out. Step 5
-- adds amounts as an `int` does, where an overflow is undefined behaviour.
--
-- Three loops have no bound in the code. The crossover runs on fuel: one round for each city, which is
-- enough since each round adds a new city to the child. The wait for the search looks at the engine
-- every two seconds, and runs on as much fuel as it is given: one look more than the engine needs.
-- Step 6 would wait in the same way for the search of each vehicle, behind a call through a dangling
-- pointer, and step 5 calls itself on as much fuel as it is given. The order in which the hash map is visited is a parameter, and so is what step
-- 5 reads from a row after it has been freed.
--
-- Not modelled: the genetic-algorithm library itself (TSP/inc), so that what a search announces is a
-- hypothesis where it matters, and its engine a parameter that the constructor makes from a
-- configuration; the destructors; the threads themselves (a notice of the engine comes while the view
-- sleeps), the messages behind the reports of the steps, and the memory of buffers, query results and
-- connections. A query
-- yields its rows at once. Outside of `atoi` and step 5 machine integers are unbounded, and a double
-- and a float are parameters with the operations that the code uses.
pub mod Base
pub mod Text
pub mod External
pub mod City
pub mod Chromosome
pub mod View
pub mod Program
mod Examples
