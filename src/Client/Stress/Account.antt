-- ===== src/Client/Stress/Account.antt =====
-- The threads of src/client/stress_client.c in any order, against what they have met.
use mathlib.Core.Bool.{false≢true}
use ride_hailing_system.Prelude.{
  ℕ, ◌+◌, ◌<◌, ◌≡◌, refl, ap, ◌∙◌, arith, false, Bool-cases, inl, inr, List, [], ◌∷◌, length,
  length-map, map, get_elem?-some, All, done,
}
use ride_hailing_system.Server.Double.{Double}
use ride_hailing_system.Client.Stress.{
  status_init, Attempt, World, step_thread, run_schedule, entries_from, new_threads, start_world,
}
use ride_hailing_system.Client.Stress.History.{
  Account, attempts_of, thread_of, entry_of, IsAccount, AreCounted, HasHistory,
}
use ride_hailing_system.Client.Stress.Turn.{thread_at, IsNext, advance-HasHistory}

module _ {W : Type 0} ⦃d : Double W⦄ where
  -- A thread that has ended does nothing in its turn.
  step_thread-HasHistory :
      (i : ℕ) (w : World W) (accounts : List (Account W))
      → i < length accounts
      → HasHistory w accounts
      → (w' : World W) × (step_thread i w ≡ done w') × IsNext i w accounts w'
  unfolding step_thread
  step_thread-HasHistory i w accounts small h =
      let (a, at) = get_elem?-some accounts i small in
      let et = thread_at w accounts i h at in
      elim (Bool-cases a.thread.finished) [
        | inl ended ↦ (w, rw (et, ended) refl, (accounts, refl, h))
        | inr running ↦
            let (w', run, after) =
              advance-HasHistory i w accounts a a.thread.attempts h at running refl in
            (w', rw (et, running) run, after)
      ]

  run_schedule-accounts :
      (schedule : List ℕ) (w : World W) (accounts : List (Account W))
      → All (λ i. i < length (map attempts_of accounts)) schedule
      → HasHistory w accounts
      → (w' : World W) × (run_schedule schedule w ≡ done w') × IsNext 0 w accounts w'
  unfolding run_schedule
  run_schedule-accounts [] w accounts small h = (w, refl, (accounts, refl, h))
  run_schedule-accounts (i ∷ schedule) w accounts (here, small) h =
      let (w1, run, (accounts1, same, h1)) =
        step_thread-HasHistory i w accounts (rw (length-map attempts_of accounts) at here) h in
      let (w2, more, (accounts2, same2, h2)) =
        run_schedule-accounts schedule w1 accounts1 (rw same small) h1 in
      (w2, rw run more, (accounts2, same2 ∙ same, h2))

  -- The accounts at the start.
  abbrev new_accounts : ℕ → List (List (Attempt W)) → List (Account W)
  new_accounts i [] = []
  new_accounts i (attempts ∷ clients) =
      record {
        attempts = attempts;
        made = [];
        thread = record { attempts = attempts; success_local_count = 0; finished = false };
        entry = record { client_id = i + 1; final_status = status_init };
      }
      ∷ new_accounts (i + 1) clients

  new_accounts_lem :
      (i : ℕ) (clients : List (List (Attempt W)))
      → (map attempts_of (new_accounts i clients) ≡ clients)
        × (new_threads clients ≡ map thread_of (new_accounts i clients))
        × (entries_from i clients ≡ map entry_of (new_accounts i clients))
        × All IsAccount (new_accounts i clients)
        × AreCounted (start_world clients).stats (new_accounts i clients)
  unfolding new_threads entries_from start_world
  new_accounts_lem i [] =
      (refl, refl, refl, tt, record { requests = refl; rides = refl; failures = refl })
  new_accounts_lem i (attempts ∷ clients) =
      let (all, threads, entries, each, counted) = new_accounts_lem (i + 1) clients in
      (
        ap (λ l. attempts ∷ l) all,
        rw threads refl,
        rw entries refl,
        (
          record { split = refl; rides = refl; says = refl; all_made = λ e. absurd (false≢true e) },
          each,
        ),
        record {
          requests = omega (arith, counted.requests);
          rides = omega (arith, counted.rides);
          failures = omega (arith, counted.failures);
        },
      )

  -- From the start of the stress client, with the turns of its threads in any order, no access is
  -- out of bounds, and at every moment each thread has made the first part of its attempts and has
  -- the rest left, such that: the total, the successes and the failures are the numbers of the
  -- answered, the confirmed and the other answered attempts that all threads have made; a thread
  -- has counted its own confirmed ones; and its entry in the table says what its first failed
  -- request met (a block for -2, no driver otherwise) or nothing if there is none, and once the
  -- thread has ended, with all attempts made, a success if there was one and else that failure, or
  -- no driver if there was none.
  pub run_schedule-HasHistory :
      (schedule : List ℕ) (clients : List (List (Attempt W)))
      → All (λ i. i < length clients) schedule
      → (w' : World W) × (accounts : List (Account W)) × (run_schedule schedule
            (start_world clients)
          ≡ done w')
        × (map attempts_of accounts ≡ clients)
        × HasHistory w' accounts
  unfolding start_world
  run_schedule-HasHistory schedule clients small =
      let (all, threads, entries, each, counted) = new_accounts_lem 0 clients in
      let (w', run, (accounts, same, h)) =
        run_schedule-accounts schedule (start_world clients) (new_accounts 0 clients) (rw all small)
          (record { threads = threads; entries = entries; each = each; counted = counted }) in
      (w', accounts, run, same ∙ all, h)
