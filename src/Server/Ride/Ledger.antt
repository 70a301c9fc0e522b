-- ===== src/Server/Ride/Ledger.antt =====
-- The ride service as a ledger: how many drivers are free, and the totals. Which driver is chosen, and
-- in which order the drivers stand, is forgotten.
use ride_hailing_system.Prelude.{
  ℕ, suc, ◌+◌, ◌%◌, ◌^◌, ◌≡◌, ap, ◌∙◌, arith, Bool, if◌then◌else◌, List, [], ◌∷◌, done, ℤ, pos,
  add_i64,
}
use ride_hailing_system.Server.Double.{Double, IsOrdered, HasExactFares}
use ride_hailing_system.Server.State.{SharedState, IsSized}
use ride_hailing_system.Server.Ride.{Reply, confirmed, no_drivers, is_vip_client}
use ride_hailing_system.Server.Ride.Assign.{Outcome, handle_ride_request_logic-Outcome}
use ride_hailing_system.Server.Ride.Fleet.{Request, free_count, confirmations, run_requests, used}

pub record Ledger : Type 0 where
  pub free : ℕ
  pub handled : ℕ
  pub deals : ℕ
  pub revenue : ℤ

abbrev pub ledger : ℕ → ℕ → ℕ → ℤ → Ledger
ledger free handled deals revenue = record {
  free = free;
  handled = handled;
  deals = deals;
  revenue = revenue;
}

-- What a request of a client, a VIP or not, does: it is refused, and nothing changes; or it is
-- confirmed (1 in place of 0), one driver is no longer free, the two counters grow, and 150 or 100
-- is earned.
pub data Moves : Bool → ℕ → Ledger → Ledger → Type 0 where
  refused : (is_vip : Bool) (l : Ledger) → Moves is_vip 0 l l
  dealt :
      (is_vip : Bool) (free handled deals : ℕ) (revenue : ℤ)
      → Moves is_vip 1 (ledger (suc free) handled deals revenue) (
          ledger free
            ((handled + 1) % 2 ^ 64)
            ((deals + 1) % 2 ^ 64)
            (add_i64 revenue (if is_vip then pos 150 else pos 100)))

-- A sequence of requests, with the number of those confirmed.
pub data Run : List Bool → ℕ → Ledger → Ledger → Type 0 where
  ended : (l : Ledger) → Run [] 0 l l
  moved :
      (is_vip : Bool) (rest : List Bool) (one more : ℕ) (l m n : Ledger)
      → Moves is_vip one l m
      → Run rest more m n
      → Run (is_vip ∷ rest) (one + more) l n

module _ {W : Type 0} where
  abbrev pub ledger_of : SharedState W → Ledger
  ledger_of s =
      ledger (free_count s.drivers) s.total_requests_handled s.total_success_requests
        s.total_revenue

abbrev pub vip_flags : List Request → List Bool
vip_flags [] = []
vip_flags (q ∷ qs) = is_vip_client q.client_id ∷ vip_flags qs

module _ {W : Type 0} ⦃d : Double W⦄ where
  Outcome-Moves :
      (q : Request) (s : SharedState W) (r : SharedState W × Reply W)
      → Outcome q.client_id s r
      → Moves (is_vip_client q.client_id) (confirmations r.1) (ledger_of s) (ledger_of r.0)
  Outcome-Moves q s (s', no_drivers) (same, choice) =
      rw same (refused (is_vip_client q.client_id) (ledger_of s))
  Outcome-Moves q s (s', confirmed id rating distance is_smart) outcome =
      let (k, v, v', a, _, _, _, _) = outcome in
      let one_less : free_count s.drivers ≡ suc (free_count s'.drivers) =
        omega (arith, used q s (s', confirmed id rating distance is_smart) outcome) in
      rw (one_less, a.handled, a.succeeded, a.earned)
        (dealt (is_vip_client q.client_id) (free_count s'.drivers) s.total_requests_handled
          s.total_success_requests s.total_revenue)

module _ {W : Type 0} ⦃d : Double W⦄ (o : IsOrdered W) (exact : HasExactFares W) where
  run_lem :
      (qs : List Request) (s : SharedState W) (rides : ℕ)
      → IsSized W s
      → (s' : SharedState W) × (taken : ℕ) × (run_requests qs s rides ≡ done (s', rides + taken))
        × Run (vip_flags qs) taken (ledger_of s) (ledger_of s')
  unfolding run_requests
  run_lem [] s rides sized = (s, 0, ap (λ (n : ℕ). done (s, n)) (omega arith), ended (ledger_of s))
  run_lem (q ∷ qs) s rides sized =
      let (r, e, outcome, sized') =
        handle_ride_request_logic-Outcome o exact s sized q.client_id q.rand1 q.rand2 in
      let (s', taken, e', run) = run_lem qs r.0 (rides + confirmations r.1) sized' in
      (
        s',
        confirmations r.1 + taken,
        rw e (e' ∙ ap (λ (n : ℕ). done (s', n)) (omega arith)),
        moved (is_vip_client q.client_id) (vip_flags qs) (confirmations r.1) taken (ledger_of s)
            (ledger_of r.0) (ledger_of s') (Outcome-Moves q s r outcome) run,
      )

  -- With a double that is ordered and adds the fares exactly, and from a state of the right sizes:
  -- any sequence of ride requests ends, and seen as a ledger (the free drivers and the totals) it
  -- is a run of the ledger for the same clients with the same number of confirmed rides: each
  -- request is refused and changes nothing, or takes one of the free drivers, counts once in both
  -- counters, and earns 150 from a VIP and 100 from another client.
  pub run_requests-Run :
      (qs : List Request) (s : SharedState W)
      → IsSized W s
      → (s' : SharedState W) × (rides : ℕ) × (run_requests qs s 0 ≡ done (s', rides))
        × Run (vip_flags qs) rides (ledger_of s) (ledger_of s')
  run_requests-Run qs s sized =
      let (s', rides, e, run) = run_lem qs s 0 sized in
      (s', rides, e ∙ ap (λ (n : ℕ). done (s', n)) (omega arith), run)
