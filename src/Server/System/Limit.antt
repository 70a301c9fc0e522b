-- ===== src/Server/System/Limit.antt =====
-- The calls of the limiter of src/server/resource_service.c in a run of the server, with their
-- answers, in the order of the critical sections.
use ride_hailing_system.Prelude.{
  ℕ, ◌+◌, ◌≡◌, arith, Bool, not, ◌&&◌, if◌then◌else◌, Option, none, some, List, [], ◌∷◌, ◌++◌,
  get_elem?, Exec, done, crash, ℤ,
}
use ride_hailing_system.Server.Double.{Double}
use ride_hailing_system.Server.State.{SharedState}
use ride_hailing_system.Server.RateLimit.{check_and_update_rate_limit}
use ride_hailing_system.Server.RateLimit.Window.{is_client}
use ride_hailing_system.Server.Pathfinding.{Grid}
use ride_hailing_system.Server.System.{
  Program, ended, failed, limit_call, ride_call, join_call, Worker, System, Turn, worker_turn,
  monitor_turn, run_turn,
}

-- A call of the limiter, with its answer.
pub record LimitCall : Type 0 where
  pub client_id : ℤ
  pub now : ℕ
  pub blocked : Bool

-- The calls of client `c`, and those that passed.
abbrev pub calls_by : ℕ → List LimitCall → ℕ
calls_by c [] = 0
calls_by c (call ∷ log) = (if is_client c call.client_id then 1 else 0) + calls_by c log

abbrev pub passed_by : ℕ → List LimitCall → ℕ
passed_by c [] = 0
passed_by c (call ∷ log) =
    (if is_client c call.client_id && not call.blocked then 1 else 0) + passed_by c log

module _ {W : Type 0} where
  abbrev pub logged : ℤ → ℕ → Exec (SharedState W × Bool) → List LimitCall
  logged client_id now crash = []
  logged client_id now (done r) = record { client_id = client_id; now = now; blocked = r.1 } ∷ []

  -- The call that the program makes in its next critical section, if it is one of the limiter.
  abbrev pub next_call : Program W Unit → SharedState W → List LimitCall
  next_call (ended a) memory = []
  next_call failed memory = []
  next_call (limit_call client_id now k) memory =
      logged client_id now (check_and_update_rate_limit client_id now memory)
  next_call (ride_call client_id rand1 rand2 k) memory = []
  next_call (join_call body k) memory = []

  abbrev pub worker_call : Option (Worker W) → SharedState W → List LimitCall
  worker_call none memory = []
  worker_call (some w) memory = next_call w.program memory

  abbrev pub turn_call : Turn → System W → List LimitCall
  turn_call (monitor_turn rolls) system = []
  turn_call (worker_turn i) system = worker_call (get_elem? system.workers i) system.memory

module _ {W : Type 0} ⦃d : Double W⦄ where
  abbrev log_after : Exec (System W) → (System W → List LimitCall) → List LimitCall
  log_after crash rest = []
  log_after (done system) rest = rest system

  -- The calls of the limiter in a run.
  unfoldable pub limit_log : Grid → List Turn → System W → List LimitCall
  limit_log grid_map [] system = []
  limit_log grid_map (t ∷ turns) system =
      turn_call t system ++ log_after (run_turn grid_map t system) (limit_log grid_map turns)

pub calls_by-append :
    (c : ℕ) (xs ys : List LimitCall) → calls_by c (xs ++ ys) ≡ calls_by c xs + calls_by c ys
calls_by-append c [] ys = omega arith
calls_by-append c (x ∷ xs) ys = omega (arith, calls_by-append c xs ys)

pub passed_by-append :
    (c : ℕ) (xs ys : List LimitCall) → passed_by c (xs ++ ys) ≡ passed_by c xs + passed_by c ys
passed_by-append c [] ys = omega arith
passed_by-append c (x ∷ xs) ys = omega (arith, passed_by-append c xs ys)
