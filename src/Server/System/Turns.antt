-- ===== src/Server/System/Turns.antt =====
-- What a turn of a worker or of the monitor does to the workers and the memory.
use mathlib.Core.Path.{subst}
use ride_hailing_system.Prelude.{
  ℕ, zero, suc, none, some, ◌+◌, ◌-◌, ◌<◌, ◌≡◌, ◌⊎◌, refl, ◌∙◌, sym, ap, arith, true, false, ◌==◌,
  if◌then◌else◌, List, [], ◌∷◌, length, length-set, get_elem?, get_elem?-lt, get_elem?-set_self,
  get_elem?-set_ne, set, done, Bool-cases, Option-cases, inl, inr, ◌≢◌,
}
use ride_hailing_system.Server.Double.{Double, IsOrdered, HasExactFares}
use ride_hailing_system.Server.State.{SharedState}
use ride_hailing_system.Server.Pathfinding.{Grid}
use ride_hailing_system.Server.Pathfinding.Grid.{IsGrid}
use ride_hailing_system.Server.MapMonitor.{Rolls}
use ride_hailing_system.Server.System.{
  Program, ended, failed, limit_call, ride_call, join_call, Worker, System, Turn, worker_turn,
  monitor_turn, step_worker, run_turn, run_turns,
}
use ride_hailing_system.Server.System.Memory.{
  IsRunning, limit-IsRunning, ride-IsRunning, join-IsRunning, tick-IsRunning,
}
use ride_hailing_system.Server.System.Budget.{EndsIn}

-- How many of the turns are of worker `i`.
abbrev pub turns_of : ℕ → List Turn → ℕ
turns_of i [] = 0
turns_of i (worker_turn j ∷ turns) = (if j == i then 1 else 0) + turns_of i turns
turns_of i (monitor_turn rolls ∷ turns) = turns_of i turns

-- The budget of each worker after a turn of worker `i`.
abbrev spend : ℕ → (ℕ → ℕ) → ℕ → ℕ
spend i budget j = if i == j then budget j - 1 else budget j

module _ {W : Type 0} where
  -- The worker has crashed after the limiter blocked a client of it; or it has met no block, and
  -- ends in `n` more turns.
  abbrev pub IsHealthy : ℕ → Worker W → Type 0
  IsHealthy n w =
      ((w.blocked ≡ true) × (w.program ≡ failed)) ⊎ ((w.blocked ≡ false) × EndsIn n w.program)

  abbrev pub AreHealthy : (ℕ → ℕ) → List (Worker W) → Type 0
  AreHealthy budget workers =
      (i : ℕ) (w : Worker W) → get_elem? workers i ≡ some w → IsHealthy (budget i) w

  AreHealthy-set :
      (budget : ℕ → ℕ) (workers : List (Worker W)) (i : ℕ) (w : Worker W)
      → AreHealthy budget workers
      → i < length workers
      → IsHealthy (budget i - 1) w
      → AreHealthy (spend i budget) (set workers i w)
  AreHealthy-set budget workers i w all here h j u e = elim (Bool-cases (i == j)) [
    | inl same ↦
        let eq : i ≡ j = ground arith in
        let hit : w ≡ u = cc (get_elem?-set_self workers i w here, e, eq) in
        rw (same, ← hit, ← eq) h
    | inr other ↦
        let ne : i ≢ j = ground arith in
        rw other (all j u (sym (get_elem?-set_ne workers i j w ne) ∙ e))
  ]

  AreHealthy-nobody :
      (budget : ℕ → ℕ) (workers : List (Worker W)) (i : ℕ)
      → AreHealthy budget workers
      → get_elem? workers i ≡ none
      → AreHealthy (spend i budget) workers
  AreHealthy-nobody budget workers i all nobody j u e = elim (Bool-cases (i == j)) [
    | inl same ↦
        let eq : i ≡ j = ground arith in
        let clash : none ≡ some u = sym nobody ∙ ap (λ k. get_elem? workers k) eq ∙ e in cc
    | inr other ↦ rw other (all j u e)
  ]

minus_zero : (n : ℕ) → n - 0 ≡ n
minus_zero n = omega arith

spend_turn :
    (i j n : ℕ) (budget : ℕ → ℕ) → spend i budget j - n ≡ budget j - ((if i == j then 1 else 0) + n)
spend_turn i j n budget = ground arith

module _ {W : Type 0} ⦃d : Double W⦄ (o : IsOrdered W) (exact : HasExactFares W) where
  step_program-IsHealthy :
      (n : ℕ) (p : Program W Unit) (s : SharedState W)
      → IsRunning s
      → EndsIn n p
      → (r : SharedState W × Worker W) × (step_worker (record { program = p; blocked = false }) s
          ≡ done r)
        × IsRunning r.0
        × IsHealthy (n - 1) r.1
  unfolding step_worker
  step_program-IsHealthy n (ended a) s running e = ((s, _), refl, running, inr (refl, tt))
  step_program-IsHealthy n failed s running e = elim e [ ]
  step_program-IsHealthy zero (limit_call client_id now k) s running e = elim e [ ]
  step_program-IsHealthy zero (ride_call client_id rand1 rand2 k) s running e = elim e [ ]
  step_program-IsHealthy zero (join_call body k) s running e = elim e [ ]
  step_program-IsHealthy (suc n) (limit_call client_id now k) s running (crashes, goes_on) =
      let ((s', blocked), e, running') = limit-IsRunning client_id now s running in
      let left : suc n - 1 ≡ n = omega arith in
      elim (Bool-cases blocked) [
        | inl yes_blocked ↦ (
          (s', record { program = k true; blocked = true }),
          rw (e, yes_blocked) refl,
          running',
          inl (refl, crashes),
        )
        | inr passes ↦ (
          (s', record { program = k false; blocked = false }),
          rw (e, passes) refl,
          running',
          rw left (inr (refl, goes_on)),
        )
      ]
  step_program-IsHealthy (suc n) (ride_call client_id rand1 rand2 k) s running e =
      let (r, served, running') = ride-IsRunning o exact client_id rand1 rand2 s running in
      let left : suc n - 1 ≡ n = omega arith in
      (
        (r.0, record { program = k r.1; blocked = false }),
        rw served refl,
        running',
        rw left (inr (refl, e r.1)),
      )
  step_program-IsHealthy (suc n) (join_call body k) s running (long, e) =
      let (s', joined, running') = join-IsRunning body s long running in
      let left : suc n - 1 ≡ n = omega arith in
      (
        (s', record { program = k; blocked = false }),
        rw joined refl,
        running',
        rw left (inr (refl, e)),
      )

  -- A turn of a healthy worker.
  step_worker-IsHealthy :
      (n : ℕ) (w : Worker W) (s : SharedState W)
      → IsRunning s
      → IsHealthy n w
      → (r : SharedState W × Worker W) × (step_worker w s ≡ done r)
        × IsRunning r.0
        × IsHealthy (n - 1) r.1
  unfolding step_worker
  step_worker-IsHealthy n w s running (inl (blocked, crashed)) =
      ((s, w), rw crashed refl, running, inl (blocked, crashed))
  step_worker-IsHealthy n w s running (inr (passes, e)) =
      let same : record { program = w.program; blocked = false } ≡ w =
        ap (λ b. record { program = w.program; blocked = b }) (sym passes) in
      subst
        (λ (u : Worker W).
          (r : SharedState W × Worker W) × (step_worker u s ≡ done r)
          × IsRunning r.0
          × IsHealthy (n - 1) r.1)
        same (step_program-IsHealthy n w.program s running e)

  module _ (grid_map : Grid) (fits : IsGrid grid_map) where
    -- A worker's turn.
    worker_turn-AreHealthy :
        (i : ℕ) (system : System W) (budget : ℕ → ℕ)
        → IsRunning system.memory
        → AreHealthy budget system.workers
        → (system' : System W) × (run_turn grid_map (worker_turn i) system ≡ done system')
          × IsRunning system'.memory
          × (length system'.workers ≡ length system.workers)
          × AreHealthy (spend i budget) system'.workers
    unfolding run_turn
    worker_turn-AreHealthy i system budget running all =
        elim (Option-cases (get_elem? system.workers i)) [
          | inl nobody ↦ (
            system,
            rw nobody refl,
            running,
            refl,
            AreHealthy-nobody budget system.workers i all nobody,
          )
          | inr (w, e) ↦
              let ((s', w'), stepped, running', h) =
                step_worker-IsHealthy (budget i) w system.memory running (all i w e) in
              (
                record { memory = s'; workers = set system.workers i w' },
                rw (e, stepped) refl,
                running',
                length-set system.workers i w',
                AreHealthy-set budget system.workers i w' all (get_elem?-lt system.workers i e) h,
              )
        ]

    monitor_turn-IsRunning :
        (rolls : ℕ → Rolls) (system : System W)
        → IsRunning system.memory
        → (memory : SharedState W) × (run_turn grid_map (monitor_turn rolls) system
            ≡ done (record system { memory = memory }))
          × IsRunning memory
    unfolding run_turn
    monitor_turn-IsRunning rolls system running =
        let (memory, e, running') = tick-IsRunning grid_map fits rolls system.memory running in
        (memory, rw e refl, running')

    -- A turn of anyone.
    pub turn-AreHealthy :
        (t : Turn) (system : System W) (budget : ℕ → ℕ)
        → IsRunning system.memory
        → AreHealthy budget system.workers
        → (system' : System W) × (budget' : ℕ → ℕ) × (run_turn grid_map t system ≡ done system')
          × IsRunning system'.memory
          × AreHealthy budget' system'.workers
    turn-AreHealthy (worker_turn i) system budget running all =
        let (system', e, running', _, all') = worker_turn-AreHealthy i system budget running all in
        (system', spend i budget, e, running', all')
    turn-AreHealthy (monitor_turn rolls) system budget running all =
        let (memory, e, running') = monitor_turn-IsRunning rolls system running in
        (record system { memory = memory }, budget, e, running', all)

    pub run_turns-AreHealthy :
        (turns : List Turn) (system : System W) (budget : ℕ → ℕ)
        → IsRunning system.memory
        → AreHealthy budget system.workers
        → (system' : System W) × (run_turns grid_map turns system ≡ done system')
          × IsRunning system'.memory
          × (length system'.workers ≡ length system.workers)
          × AreHealthy (λ i. budget i - turns_of i turns) system'.workers
    unfolding run_turns
    run_turns-AreHealthy [] system budget running all =
        (system, refl, running, refl, λ i w e. rw (minus_zero (budget i)) (all i w e))
    run_turns-AreHealthy (monitor_turn rolls ∷ turns) system budget running all =
        let (memory, e, running') = monitor_turn-IsRunning rolls system running in
        let (system', e', running2, size, all') =
          run_turns-AreHealthy turns (record system { memory = memory }) budget running' all in
        (system', rw e e', running2, size, all')
    run_turns-AreHealthy (worker_turn i ∷ turns) system budget running all =
        let (next, e, running1, size, all1) = worker_turn-AreHealthy i system budget running all in
        let (system', e', running2, size', all2) =
          run_turns-AreHealthy turns next (spend i budget) running1 all1 in
        (
          system',
          rw e e',
          running2,
          size' ∙ size,
          λ j w ew. rw (← spend_turn i j (turns_of j turns) budget) (all2 j w ew),
        )
