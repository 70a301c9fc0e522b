-- ===== src/Client/Stress/Totals.antt =====
-- The stress client as a whole (client/stress_client.c): its threads in any order.
use mathlib.Core.Path.{subst}
use ride_hailing_system.Prelude.{
  ℕ, zero, suc, ◌+◌, ◌-◌, ◌<◌, ◌≡◌, refl, sym, ◌∙◌, arith, Bool, true, false, not, ltb, ◌==◌,
  if◌then◌else◌, Bool-cases, inl, inr, List, [], ◌∷◌, length, get_elem?, get_elem?-lt,
  get_elem?-some, total_of, ap, All, some, done, ==_iff,
}
use ride_hailing_system.Prelude.Pairs.{All2, All2-imp}
use ride_hailing_system.Server.Double.{Double}
use ride_hailing_system.Client.Stress.{
  ClientStatusEntry, Attempt, Thread, World, run_schedule, entries_from, new_threads, start_world,
  ClientResultStatus, status_init, status_success, status_fail_no_driver, status_fail_dos,
  status_fail_other,
}
use ride_hailing_system.Client.Stress.Steps.{fits, Fits}
use ride_hailing_system.Client.Stress.Agreement.{
  turns_left, local_count, Agrees, Stepped, step_thread-Agrees,
}

-- The turns of thread `j` in a schedule.
abbrev pub turns_of : ℕ → List ℕ → ℕ
turns_of j [] = 0
turns_of j (i ∷ schedule) = (if i == j then 1 else 0) + turns_of j schedule

-- What an entry may say in the end.
abbrev pub is_told : Bool → ClientResultStatus → Bool
is_told succeeded status_init = false
is_told succeeded status_success = succeeded
is_told succeeded status_fail_no_driver = not succeeded
is_told succeeded status_fail_dos = not succeeded
is_told succeeded status_fail_other = false

is_told-fits :
    (succeeded : Bool) (st : ClientResultStatus)
    → fits true succeeded st ≡ true
    → is_told succeeded st ≡ true
is_told-fits succeeded status_init h = h
is_told-fits succeeded status_success h = h
is_told-fits succeeded status_fail_no_driver h = h
is_told-fits succeeded status_fail_dos h = h
is_told-fits succeeded status_fail_other h = h

module _ {W : Type 0} where
  -- No turn is left only to a thread that has ended.
  turns_left-ended : (t : Thread W) → turns_left (some t) ≡ 0 → t.finished ≡ true
  turns_left-ended t h = elim (Bool-cases t.finished) [
    | inl ended ↦ ended
    | inr running ↦
        let some_left : suc (length t.attempts) ≡ 0 =
          sym (ap (λ b. if b then 0 else suc (length t.attempts)) running) ∙ h in
        absurd (omega (arith, some_left))
  ]

  -- After the schedule.
  pub record Ran (schedule : List ℕ) (w w' : World W) : Type 0 where
    pub agrees : Agrees W w'
    pub same_length : length w'.threads ≡ length w.threads
    pub turns :
        (j : ℕ)
        → turns_left (get_elem? w'.threads j)
          ≡ turns_left (get_elem? w.threads j) - turns_of j schedule

  step-turns :
      (i j : ℕ) (w w' : World W)
      → Stepped i w w'
      → turns_left (get_elem? w'.threads j)
        ≡ turns_left (get_elem? w.threads j) - (if i == j then 1 else 0)
  step-turns i j w w' h = elim (Bool-cases (i == j)) [
    | inl same ↦ rw same (
        subst (λ k. turns_left (get_elem? w'.threads k) ≡ turns_left (get_elem? w.threads k) - 1)
          ((==_iff i j).0 same) h.own)
    | inr other ↦ rw (other, h.others j (λ e. absurd (ground (arith, e, other)))) (omega arith)
  ]

module _ {W : Type 0} ⦃d : Double W⦄ where
  pub run_schedule-Agrees :
      (schedule : List ℕ) (w : World W)
      → All (λ i. i < length w.threads) schedule
      → Agrees W w
      → (w' : World W) × (run_schedule schedule w ≡ done w') × Ran schedule w w'
  unfolding run_schedule
  run_schedule-Agrees [] w small h =
      (w, refl, record { agrees = h; same_length = refl; turns = λ j. omega arith })
  run_schedule-Agrees (i ∷ schedule) w small h =
      let (w', run, after) = step_thread-Agrees i w small.0 h in
      let (w'', more, rest) =
        run_schedule-Agrees schedule w'
          (subst (λ n. All (λ k. k < n) schedule) (sym after.same_length) small.1) after.agrees in
      (
        w'',
        rw (run, more),
        record {
          agrees = rest.agrees;
          same_length = rest.same_length ∙ after.same_length;
          turns = λ j. omega (arith, rest.turns j, step-turns i j w w' after);
        },
      )

  length-new_threads :
      (clients : List (List (Attempt W))) → length (new_threads clients) ≡ length clients
  unfolding new_threads
  length-new_threads [] = refl
  length-new_threads (attempts ∷ clients) = ap suc (length-new_threads clients)

  start-shown :
      (i : ℕ) (clients : List (List (Attempt W)))
      → All2 Fits (entries_from i clients) (new_threads clients)
  unfolding entries_from new_threads
  start-shown i [] = tt
  start-shown i (attempts ∷ clients) = (refl, start-shown (i + 1) clients)

  start-shared :
      (clients : List (List (Attempt W))) → total_of local_count (new_threads clients) ≡ 0
  unfolding new_threads
  start-shared [] = refl
  start-shared (attempts ∷ clients) = omega (arith, start-shared clients)

  start_world-Agrees : (clients : List (List (Attempt W))) → Agrees W (start_world clients)
  unfolding start_world
  start_world-Agrees clients = record {
    counted = refl;
    shared = start-shared clients;
    shown = start-shown 0 clients;
  }

  -- The turns that a new thread needs: one for each attempt, and one for its end.
  start_turns :
      (clients : List (List (Attempt W))) (j : ℕ) {attempts : List (Attempt W)}
      → get_elem? clients j ≡ some attempts
      → turns_left (get_elem? (new_threads clients) j) ≡ suc (length attempts)
  unfolding new_threads
  start_turns [] j e = cc
  start_turns (a ∷ clients) zero {attempts} e = let same : a ≡ attempts = cc in rw same
  start_turns (a ∷ clients) (suc j) e = start_turns clients j e

  run_start :
      (schedule : List ℕ) (clients : List (List (Attempt W)))
      → All (λ i. i < length clients) schedule
      → (w' : World W) × (run_schedule schedule (start_world clients) ≡ done w')
        × Ran schedule (start_world clients) w'
  unfolding start_world
  run_start schedule clients small =
      run_schedule-Agrees schedule (start_world clients)
        (subst (λ n. All (λ k. k < n) schedule) (sym (length-new_threads clients)) small)
        (start_world-Agrees clients)

  -- The table says of a thread what it says in the end: the thread has ended, and its entry is a
  -- success if and only if one of its requests was, and tells a failure otherwise.
  pub record IsTold (e : ClientStatusEntry) (t : Thread W) : Type 0 where
    pub ended : t.finished ≡ true
    pub told : is_told (ltb 0 t.success_local_count) e.final_status ≡ true

  -- Enough turns for every thread end every thread.
  Ran-ended :
      (schedule : List ℕ) (clients : List (List (Attempt W))) (w' : World W) (j : ℕ) (t : Thread W)
      → Ran schedule (start_world clients) w'
      → ((j : ℕ) (attempts : List (Attempt W))
          → get_elem? clients j ≡ some attempts
          → length attempts < turns_of j schedule)
      → get_elem? w'.threads j ≡ some t
      → t.finished ≡ true
  unfolding start_world
  Ran-ended schedule clients w' j t after fair at =
      let small : j < length clients =
        omega
          (arith, get_elem?-lt w'.threads j at, after.same_length, length-new_threads clients) in
      let (attempts, ea) = get_elem?-some clients j small in
      turns_left-ended t (
        omega
          (arith, ap turns_left at, after.turns j, start_turns clients j ea, fair j attempts ea))

  -- If every thread of the stress client gets more turns than it makes attempts, in any order, then
  -- every thread ends, and its entry in the table is a success if it had one and a failure if it
  -- had none.
  pub run_schedule-IsTold :
      (schedule : List ℕ) (clients : List (List (Attempt W)))
      → All (λ i. i < length clients) schedule
      → ((j : ℕ) (attempts : List (Attempt W))
          → get_elem? clients j ≡ some attempts
          → length attempts < turns_of j schedule)
      → (w' : World W) × (run_schedule schedule (start_world clients) ≡ done w')
        × All2 IsTold w'.status_list w'.threads
  run_schedule-IsTold schedule clients small fair =
      let (w', run, after) = run_start schedule clients small in
      (
        w',
        run,
        All2-imp Fits IsTold w'.status_list w'.threads
            (λ i e t at fit.
              let ended = Ran-ended schedule clients w' i t after fair at in
              record {
                ended = ended;
                told = is_told-fits (ltb 0 t.success_local_count) e.final_status (
                    sym (ap (λ b. fits b (ltb 0 t.success_local_count) e.final_status) ended)
                    ∙ fit);
              })
            after.agrees.shown,
      )
