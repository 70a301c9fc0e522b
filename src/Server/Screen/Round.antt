-- ===== src/Server/Screen/Round.antt =====
-- A round of the thread in src/server/map_monitor.c, with what it prints.
use ride_hailing_system.Prelude.{ℕ, ◌≡◌, refl, eqb_ℤ, false, take, done, pos}
use ride_hailing_system.Prelude.Pairs.{All2}
use ride_hailing_system.Server.Double.{Double}
use ride_hailing_system.Server.State.{SharedState, IsSized}
use ride_hailing_system.Server.Pathfinding.{map_height, Grid}
use ride_hailing_system.Server.Pathfinding.Grid.{IsGrid}
use ride_hailing_system.Server.Pathfinding.Obstacles.{obstacle_map, obstacle_map-IsGrid}
use ride_hailing_system.Server.MapMonitor.{Rolls, tick}
use ride_hailing_system.Server.MapView.{draw_map}
use ride_hailing_system.Server.System.Memory.{IsRunning, tick-IsRunning}
use ride_hailing_system.Server.Screen.{Screen, Reads, monitor_round}
use ride_hailing_system.Server.Screen.Rows.{plain, map_shown}
use ride_hailing_system.Server.Screen.Drawn.{draw_map-map_text}
use ride_hailing_system.Server.Screen.Table.{IsRowOf, left_out, table-AreRows}

module _ {W : Type 0} ⦃d : Double W⦄ where
  -- What the screen shows of the reads: the map as it is drawn of them, without its colours; the
  -- mode and the totals; and a row for each of the first ten drivers in use, with the number of those
  -- that are left out.
  pub record IsScreen (later : Reads W) (drivers : ℕ) (old : Grid) (screen : Screen W)
      : Type 0 where
    pub map : Grid
    pub drawn : draw_map obstacle_map later.for_map old ≡ done map
    pub shown : plain false screen.map ≡ map_shown map_height map
    pub rows : All2 IsRowOf (take 10 (take drivers later.for_table.drivers)) screen.rows
    pub rest : screen.left_out ≡ left_out drivers
    pub mode : screen.is_smart ≡ eqb_ℤ later.for_title.dispatch_mode (pos 1)
    pub deals : screen.deals ≡ later.for_title.total_success_requests
    pub revenue : screen.revenue ≡ later.for_title.total_revenue

  -- A round of the monitor on the memory of a running server, whatever rand() returns, and whatever
  -- states of the right sizes its reads after the unlock make up: it ends without a crash, and at
  -- the unlock the memory is again that of a running server. The printed map, without its escape
  -- sequences, is the map drawn of what was read for it, from the highest row down, with the
  -- legend; the second line has the mode and the totals read for it; and the table has, of what was
  -- read for it, a row for each of the first ten drivers in use, with its number and rating, the
  -- status that tells its three flags if exactly one is set, and a bar with one sign for each unit
  -- of fuel up to ten, and the number of the drivers that are left out.
  pub monitor_round-IsScreen :
      (rolls : ℕ → Rolls) (s : SharedState W) (later : Reads W) (n : ℕ) (old : Grid)
      → IsRunning s
      → IsSized W later.for_map
      → IsSized W later.for_table
      → later.for_table.driver_count ≡ pos n
      → IsGrid old
      → (s' : SharedState W) × (screen : Screen W) × (monitor_round obstacle_map rolls s later old
          ≡ done (s', screen))
        × (tick obstacle_map rolls s ≡ done s')
        × IsRunning s'
        × IsScreen later n old screen
  unfolding monitor_round
  monitor_round-IsScreen rolls s later n old running sized_map sized_table count grid =
      let (s', ticked, running') =
        tick-IsRunning obstacle_map obstacle_map-IsGrid rolls s running in
      let (map, text, drawn, printed, shown) = draw_map-map_text later.for_map old sized_map grid in
      let (rows, listed, are_rows) = table-AreRows later.for_table n count sized_table in
      (
        s',
        record {
          is_smart = eqb_ℤ later.for_title.dispatch_mode (pos 1);
          deals = later.for_title.total_success_requests;
          revenue = later.for_title.total_revenue;
          map = text;
          rows = rows;
          left_out = left_out n;
        },
        rw (ticked, drawn, printed, listed) refl,
        ticked,
        running',
        record {
          map = map;
          drawn = drawn;
          shown = shown;
          rows = are_rows;
          rest = refl;
          mode = refl;
          deals = refl;
          revenue = refl;
        },
      )
