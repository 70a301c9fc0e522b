-- ===== src/Server/System/Window.antt =====
-- The limiter of src/server/resource_service.c under every order of the critical sections of the
-- workers and the monitor.
use Prim.Native.Nat.{min}
use mathlib.Core.Path.{subst}
use ride_hailing_system.Prelude.{
  ℕ, zero, suc, ◌+◌, ◌<◌, ◌≤◌, ◌≡◌, ◌≢◌, refl, arith, Bool, true, if◌then◌else◌, Bool-cases, inl,
  inr, none, some, Option-cases, List, [], ◌∷◌, length, ltb, get_elem?, All, All-split, Exec, done,
  crash, >>=-eq_done, ℤ,
}
use ride_hailing_system.Server.Double.{Double, IsOrdered, HasExactFares}
use ride_hailing_system.Server.State.{SharedState, max_clients}
use ride_hailing_system.Server.RateLimit.{check_and_update_rate_limit}
use ride_hailing_system.Server.RateLimit.Window.{is_client, HasCalled, any_call}
use ride_hailing_system.Server.Ride.{handle_ride_request_logic}
use ride_hailing_system.Server.Ride.Assign.{handle_ride_request_logic-Outcome}
use ride_hailing_system.Server.Coordinator.{process_driver_join}
use ride_hailing_system.Server.Pathfinding.{Grid}
use ride_hailing_system.Server.Pathfinding.Grid.{IsGrid}
use ride_hailing_system.Server.MapMonitor.{tick}
use ride_hailing_system.Server.System.{
  Program, ended, failed, limit_call, ride_call, join_call, Worker, System, Turn, worker_turn,
  monitor_turn, step_worker, run_turn, run_turns,
}
use ride_hailing_system.Server.System.Memory.{IsRunning}
use ride_hailing_system.Server.System.Budget.{EndsIn}
use ride_hailing_system.Server.System.Turns.{IsHealthy, AreHealthy, turn-AreHealthy}
use ride_hailing_system.Server.System.Limit.{
  LimitCall, calls_by, passed_by, logged, next_call, worker_call, turn_call, limit_log,
  calls_by-append, passed_by-append,
}
use ride_hailing_system.Server.System.Counters.{
  HasCalled-same, AreCountersKept, join_counters, ride_counters, tick_counters,
}

-- The call of the second `now`.
abbrev pub IsAtSecond : ℕ → LimitCall → Type 0
IsAtSecond now call = call.now ≡ now

module _ {W : Type 0} ⦃d : Double W⦄ (o : IsOrdered W) (exact : HasExactFares W) (c now : ℕ)
    (c_pos : 0 < c) (c_small : c < max_clients) where
  -- After a step with the calls `log`, client `c`, who had called `k` times, has called once more
  -- for each of its calls in it; and what passed in it is what was left of the first three.
  abbrev IsCounted : ℕ → List LimitCall → SharedState W → Type 0
  IsCounted k log s =
      HasCalled c now (k + calls_by c log) s
      × (passed_by c log + min 3 k ≡ min 3 (k + calls_by c log))

  IsCounted-none :
      (k : ℕ) (s s' : SharedState W)
      → AreCountersKept s s'
      → HasCalled c now k s
      → IsCounted k [] s'
  IsCounted-none k s s' (seen, count) called =
      let e : k ≡ k + 0 = omega arith in
      (rw (← e) (HasCalled-same c now k s s' seen count called), omega arith)

  limit-IsCounted :
      (x : ℤ) (t k : ℕ) (blocked : Bool) (s : SharedState W)
      → HasCalled c now (if is_client c x then suc k else k) s
      → (is_client c x ≡ true → blocked ≡ ltb 3 (suc k))
      → IsCounted k (record { client_id = x; now = t; blocked = blocked } ∷ []) s
  limit-IsCounted x t k blocked s called own = elim (Bool-cases (is_client c x)) [
    | inl mine ↦
        let e : suc k ≡ k + (1 + 0) = omega arith in
        rw (mine, own mine) (subst (λ m. HasCalled c now m s) e (rw mine at called), ground arith)
    | inr other ↦
        let e : k ≡ k + 0 = omega arith in
        rw other (subst (λ m. HasCalled c now m s) e (rw other at called), omega arith)
  ]

  program-IsCounted :
      (k n : ℕ) (p : Program W Unit) (b : Bool) (s : SharedState W) (r : SharedState W × Worker W)
      → IsRunning s
      → EndsIn n p
      → HasCalled c now k s
      → k < 2147483647
      → step_worker (record { program = p; blocked = b }) s ≡ done r
      → All (IsAtSecond now) (next_call p s)
      → IsCounted k (next_call p s) r.0
  unfolding step_worker
  program-IsCounted k n (ended a) b s r running ends called small e all =
      let same : s ≡ r.0 = cc in rw (← same) (IsCounted-none k s s (refl, refl) called)
  program-IsCounted k n failed b s r running ends called small e all = elim ends [ ]
  program-IsCounted k n (limit_call x t p) b s r running ends called small e all =
      let (q, eq, after) = >>=-eq_done (check_and_update_rate_limit x t s) _ e in
      let (at, _) = rw eq at all in
      let (s', blocked, er, _, called', own) =
        any_call now c c_pos c_small x k s running.well.sized called small in
      let here : check_and_update_rate_limit x now s ≡ done q =
        subst (λ m. check_and_update_rate_limit x m s ≡ done q) at eq in
      let same : s' ≡ r.0 = cc in
      let told : blocked ≡ q.1 = cc in
      rw eq (limit-IsCounted x t k q.1 r.0 (rw same at called') (rw told at own))
  program-IsCounted k n (ride_call x r1 r2 p) b s r running ends called small e all =
      let (q, eq, after) = >>=-eq_done (handle_ride_request_logic x r1 r2 s) _ e in
      let (t, et, outcome, _) =
        handle_ride_request_logic-Outcome o exact s running.well.sized x r1 r2 in
      let same : t.0 ≡ r.0 = cc in
      IsCounted-none k s r.0 (rw same at (ride_counters x s t.0 t.1 outcome)) called
  program-IsCounted k zero (join_call body p) b s r running ends called small e all = elim ends [ ]
  program-IsCounted k (suc n) (join_call body p) b s r running (long, ends) called small e all =
      let (s', joined, after) = >>=-eq_done (process_driver_join body s) _ e in
      let same : s' ≡ r.0 = cc in
      IsCounted-none k s r.0 (rw same at (join_counters body s s' long running joined)) called

  -- A worker calls the limiter at most once in a turn.
  logged_once : (x : ℤ) (t : ℕ) (m : Exec (SharedState W × Bool)) → calls_by c (logged x t m) ≤ 1
  logged_once x t crash = omega arith
  logged_once x t (done r) = ground arith

  turn_call_once : (t : Turn) (system : System W) → calls_by c (turn_call t system) ≤ 1
  turn_call_once (monitor_turn rolls) system = omega arith
  turn_call_once (worker_turn i) system =
      elim (get_elem? system.workers i)
        as (λ found. calls_by c (worker_call found system.memory) ≤ 1) [
          | none ↦ omega arith
          | some w ↦ elim w.program as (λ p. calls_by c (next_call p system.memory) ≤ 1) [
            | ended a ↦ omega arith
            | failed ↦ omega arith
            | limit_call x t k ↦ logged_once x t (check_and_update_rate_limit x t system.memory)
            | ride_call x r1 r2 k ↦ omega arith
            | join_call body k ↦ omega arith
          ]
        ]

  worker-IsCounted :
      (k n : ℕ) (w : Worker W) (s : SharedState W) (r : SharedState W × Worker W)
      → IsRunning s
      → IsHealthy n w
      → HasCalled c now k s
      → k < 2147483647
      → step_worker w s ≡ done r
      → All (IsAtSecond now) (next_call w.program s)
      → IsCounted k (next_call w.program s) r.0
  unfolding step_worker
  worker-IsCounted k n w s r running (inr (_, ends)) called small e all =
      program-IsCounted k n w.program w.blocked s r running ends called small e all
  worker-IsCounted k n w s r running (inl (_, crashed)) called small e all =
      let stays : step_worker w s ≡ done (s, w) = rw crashed refl in
      let same : s ≡ r.0 = cc in rw (crashed, ← same) (IsCounted-none k s s (refl, refl) called)

  module _ (grid_map : Grid) where
    turn-IsCounted :
        (k : ℕ) (t : Turn) (system system' : System W) (budget : ℕ → ℕ)
        → IsRunning system.memory
        → AreHealthy budget system.workers
        → HasCalled c now k system.memory
        → k < 2147483647
        → run_turn grid_map t system ≡ done system'
        → All (IsAtSecond now) (turn_call t system)
        → IsCounted k (turn_call t system) system'.memory
    unfolding run_turn
    turn-IsCounted k (monitor_turn rolls) system system' budget running healthy called small e all =
        let (memory, ticked, after) = >>=-eq_done (tick grid_map rolls system.memory) _ e in
        let same : memory ≡ system'.memory = cc in
        IsCounted-none k system.memory system'.memory
          (rw same at (tick_counters grid_map rolls system.memory memory ticked)) called
    turn-IsCounted k (worker_turn i) system system' budget running healthy called small e all =
        elim (Option-cases (get_elem? system.workers i)) [
          | inl nobody ↦
              let stays : done system ≡ done system' = rw nobody at e in
              let same : system.memory ≡ system'.memory = cc in
              rw (nobody, ← same) (IsCounted-none k system.memory system.memory (refl, refl) called)
          | inr (w, here) ↦
              let goes = rw here at e in
              let (r, stepped, after) = >>=-eq_done (step_worker w system.memory) _ goes in
              let same : r.0 ≡ system'.memory = cc in
              rw (here, ← same)
                (worker-IsCounted k (budget i) w system.memory r running (healthy i w here) called
                  small stepped (rw here at all))
        ]

    module _ (fits : IsGrid grid_map) where
      run_turns-IsCounted :
          (k : ℕ) (turns : List Turn) (system : System W) (budget : ℕ → ℕ)
          → IsRunning system.memory
          → AreHealthy budget system.workers
          → HasCalled c now k system.memory
          → k + length turns < 2147483647
          → All (IsAtSecond now) (limit_log grid_map turns system)
          → (system' : System W) × (run_turns grid_map turns system ≡ done system')
            × (passed_by c (limit_log grid_map turns system) + min 3 k
                ≡ min 3 (k + calls_by c (limit_log grid_map turns system)))
      unfolding run_turns limit_log
      run_turns-IsCounted k [] system budget running healthy called small all =
          (system, refl, omega arith)
      run_turns-IsCounted k (t ∷ turns) system budget running healthy called small all =
          let (next, budget', e, running', healthy') =
            turn-AreHealthy o exact grid_map fits t system budget running healthy in
          let log = turn_call t system in
          let later = limit_log grid_map turns next in
          let (now_all, later_all) = All-split (IsAtSecond now) log later (rw e at all) in
          let (called', counted) =
            turn-IsCounted k t system next budget running healthy called (omega arith) e now_all in
          let once = turn_call_once t system in
          let (system', e', counted') =
            run_turns-IsCounted (k + calls_by c log) turns next budget' running' healthy' called'
              (omega arith) later_all in
          (
            system',
            rw e e',
            rw (e, passed_by-append c log later, calls_by-append c log later)
                (omega (arith, counted, counted')),
          )

      -- Take a client number from 1 to 1999 that has not called in the second `now` yet, the memory
      -- of a running server, on a grid of the right size and with a double that is ordered and adds
      -- the fares exactly, and any workers each of which has crashed after a block, or has met
      -- none, enters a bounded number of critical sections before it ends, crashes where it is
      -- blocked, and joins with bodies of at least four bytes. If all the calls of the limiter in
      -- fewer than 2147483647 turns of the workers and the monitor, in any order, are within the
      -- second `now`, then these turns end without a crash inside a critical section, and exactly
      -- the first three calls of the client pass (all of them if there are fewer), whatever the
      -- other clients do.
      pub passed_by-limit_log :
          (turns : List Turn) (system : System W) (budget : ℕ → ℕ) (seen : ℕ)
          → IsRunning system.memory
          → AreHealthy budget system.workers
          → get_elem? system.memory.client_last_seen c ≡ some seen
          → seen ≢ now
          → length turns < 2147483647
          → All (IsAtSecond now) (limit_log grid_map turns system)
          → (system' : System W) × (run_turns grid_map turns system ≡ done system')
            × (passed_by c (limit_log grid_map turns system)
                ≡ min 3 (calls_by c (limit_log grid_map turns system)))
      passed_by-limit_log turns system budget seen running healthy es ne small all =
          let (system', e, counted) =
            run_turns-IsCounted 0 turns system budget running healthy (seen, es, ground arith)
              (omega arith) all in
          (system', e, omega (arith, counted))
