-- ===== src/Server/System/Schedule.antt =====
-- The server (src/server/dispatcher.c, src/server/map_monitor.c) under every order of the critical
-- sections of its processes.
use mathlib.Core.Path.{subst}
use ride_hailing_system.Prelude.{
  ℕ, zero, suc, Option, ◌*◌, ◌-◌, ◌≤◌, ◌≡◌, ◌↔◌, ◌⊎◌, refl, ◌∙◌, sym, arith, true, false, List, [],
  ◌∷◌, map, length, length-map, ◌<◌, some, get_elem?, get_elem?-some, All, All-at, ℤ, pos, done,
  ◌>>=◌, inl, inr,
}
use ride_hailing_system.Common.Rc4.Keystream.{IsByte}
use ride_hailing_system.Server.Double.{Double, IsOrdered, HasExactFares}
use ride_hailing_system.Server.State.{SharedState, max_drivers}
use ride_hailing_system.Server.Ride.{Reply}
use ride_hailing_system.Server.Pathfinding.{Grid}
use ride_hailing_system.Server.Pathfinding.Grid.{IsGrid}
use ride_hailing_system.Server.Start.{Places}
use ride_hailing_system.Server.Dispatcher.{Accepted}
use ride_hailing_system.Server.Dispatcher.Loop.{IsAccepted, IsServing}
use ride_hailing_system.Server.System.{
  Program, ended, failed, limit_call, ride_call, join_call, Worker, System, Turn, start_worker,
  run_turns, start_system,
}
use ride_hailing_system.Server.System.Memory.{IsRunning}
use ride_hailing_system.Server.System.Begin.{init_state-IsRunning}
use ride_hailing_system.Server.System.Budget.{EndsIn}
use ride_hailing_system.Server.System.Sessions.{worker_program-EndsIn}
use ride_hailing_system.Server.System.Turns.{turns_of, IsHealthy, AreHealthy, run_turns-AreHealthy}

-- Twice the connections of worker `i`.
abbrev pub sections_of : List (List (Option Accepted)) → ℕ → ℕ
sections_of [] i = 0
sections_of (clients ∷ jobs) zero = 2 * length clients
sections_of (clients ∷ jobs) (suc i) = sections_of jobs i

module _ {W : Type 0} where
  -- The worker has crashed if and only if the limiter has blocked one of its clients.
  abbrev pub IsJudged : Worker W → Type 0
  IsJudged w = (w.program ≡ failed) ↔ (w.blocked ≡ true)

  -- The worker enters no critical section any more: its program is at its end and the limiter has
  -- blocked none of its clients, or it has crashed after a block.
  abbrev pub HasStopped : Worker W → Type 0
  HasStopped w =
      ((w.program ≡ ended tt) × (w.blocked ≡ false)) ⊎ ((w.program ≡ failed) × (w.blocked ≡ true))

  healthy-IsJudged : (n : ℕ) (w : Worker W) → IsHealthy n w → IsJudged w
  healthy-IsJudged n w (inl (blocked, crashed)) = (λ _. blocked, λ _. crashed)
  healthy-IsJudged n w (inr (passes, e)) = (
    λ crashed. absurd (subst (EndsIn n) crashed e),
    λ blocked. let clash : false ≡ true = sym passes ∙ blocked in cc,
  )

  ends_at_once : (p : Program W Unit) → EndsIn 0 p → p ≡ ended tt
  ends_at_once (ended tt) e = refl
  ends_at_once failed e = elim e [ ]
  ends_at_once (limit_call client_id now k) e = elim e [ ]
  ends_at_once (ride_call client_id rand1 rand2 k) e = elim e [ ]
  ends_at_once (join_call body k) e = elim e [ ]

  healthy-HasStopped : (w : Worker W) → IsHealthy 0 w → HasStopped w
  healthy-HasStopped w (inl (blocked, crashed)) = inr (crashed, blocked)
  healthy-HasStopped w (inr (passes, e)) = inl (ends_at_once w.program e, passes)

module _ {W : Type 0} ⦃d : Double W⦄ (text : Reply W → List ℕ)
    (bytes : (reply : Reply W) → All IsByte (text reply)) (memory : SharedState W) where
  pub start-AreHealthy :
      (jobs : List (List (Option Accepted)))
      → IsRunning memory
      → All (All IsAccepted) jobs
      → AreHealthy (sections_of jobs) (map (start_worker text) jobs)
  start-AreHealthy [] running all i w e = cc
  start-AreHealthy (clients ∷ jobs) running all zero w e =
      let serving : IsServing memory = record {
        sized = running.well.sized;
        drivers = running.drivers;
        count = running.count;
      } in
      let same : start_worker text clients ≡ w = cc in
      rw (← same) (inr (refl, worker_program-EndsIn text bytes memory clients all.0 serving))
  start-AreHealthy (clients ∷ jobs) running all (suc i) w e =
      start-AreHealthy jobs running all.1 i w e

module _ {W : Type 0} ⦃d : Double W⦄ (o : IsOrdered W) (exact : HasExactFares W)
    (text : Reply W → List ℕ) (bytes : (reply : Reply W) → All IsByte (text reply))
    (grid_map : Grid) (fits : IsGrid grid_map) where
  start_system-AreHealthy :
      (places : ℕ → Places) (n : ℕ) (mode : ℤ) (jobs : List (List (Option Accepted)))
      (turns : List Turn)
      → n ≤ max_drivers
      → All (All IsAccepted) jobs
      → (system : System W) × ((start_system text places (pos n) mode jobs
            >>= run_turns grid_map turns)
          ≡ done system)
        × IsRunning system.memory
        × (length system.workers ≡ length jobs)
        × AreHealthy (λ i. sections_of jobs i - turns_of i turns) system.workers
  unfolding start_system
  start_system-AreHealthy places n mode jobs turns room all =
      let (memory, e, running) = init_state-IsRunning places n mode room in
      let (system, e', running', size, all') =
        run_turns-AreHealthy o exact grid_map fits turns
          (record { memory = memory; workers = map (start_worker text) jobs }) (sections_of jobs)
          running (start-AreHealthy text bytes memory jobs running all) in
      (system, rw e e', running', size ∙ length-map (start_worker text) jobs, all')

  -- With at most 256 drivers asked for, on a grid of the right size, with a double that is ordered
  -- and adds the fares exactly, and with replies whose texts are bytes: the server starts, and
  -- whatever bytes the clients of any number of workers send in whatever packets, every order of
  -- the critical sections of the workers and of the monitor ends without a crash inside a critical
  -- section. The arrays then have their sizes, each driver in use, those that have joined included,
  -- is in exactly one of its three modes and has 0 to 11 units of fuel, and no place after them is
  -- refuelling or has a target; and a worker has crashed if and only if the limiter has blocked one
  -- of its clients.
  pub run_turns-IsJudged :
      (places : ℕ → Places) (n : ℕ) (mode : ℤ) (jobs : List (List (Option Accepted)))
      (turns : List Turn)
      → n ≤ max_drivers
      → All (All IsAccepted) jobs
      → (system : System W) × ((start_system text places (pos n) mode jobs
            >>= run_turns grid_map turns)
          ≡ done system)
        × IsRunning system.memory
        × All IsJudged system.workers
  run_turns-IsJudged places n mode jobs turns room all =
      let (system, e, running, size, healthy) =
        start_system-AreHealthy places n mode jobs turns room all in
      (
        system,
        e,
        running,
        All-at IsJudged system.workers λ i w here. healthy-IsJudged _ w (healthy i w here),
      )

  -- Under the same conditions, a worker that gets at least twice as many turns as it has
  -- connections, whatever the order and however many turns the other workers and the monitor get,
  -- enters no critical section any more: its program is at its end and the limiter has blocked none
  -- of its clients, or it has crashed and the limiter has blocked one. (A worker that a signal ends
  -- gets no more turns: SIGPIPE, after a client has closed its connection early, is one.)
  pub run_turns-HasStopped :
      (places : ℕ → Places) (n : ℕ) (mode : ℤ) (jobs : List (List (Option Accepted)))
      (turns : List Turn) (i : ℕ)
      → n ≤ max_drivers
      → All (All IsAccepted) jobs
      → i < length jobs
      → sections_of jobs i ≤ turns_of i turns
      → (system : System W) × (w : Worker W) × ((start_system text places (pos n) mode jobs
            >>= run_turns grid_map turns)
          ≡ done system)
        × (get_elem? system.workers i ≡ some w)
        × HasStopped w
  run_turns-HasStopped places n mode jobs turns i room all small enough =
      let (system, e, running, size, healthy) =
        start_system-AreHealthy places n mode jobs turns room all in
      let (w, here) = get_elem?-some system.workers i (omega (arith, size, small)) in
      let spent : sections_of jobs i - turns_of i turns ≡ 0 = omega (arith, enough) in
      (system, w, e, here, healthy-HasStopped w (rw spent at (healthy i w here)))
