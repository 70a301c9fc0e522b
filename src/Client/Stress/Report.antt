-- ===== src/Client/Stress/Report.antt =====
-- What src/client/stress_client.c prints in the end: `print_client_status_table` and the summary.
use mathlib.Core.List.{append_assoc, append-nil}
use ride_hailing_system.Prelude.{
  ℕ, zero, suc, ◌+◌, ◌<◌, ◌≡◌, refl, sym, ◌∙◌, arith, Bool, true, false, Bool-cases, inl, inr,
  if◌then◌else◌, ap, pos, negsuc, eqb_ℤ, ltb, List, [], ◌∷◌, ◌++◌, length, get_elem?,
  get_elem?-append, length-append, length-map, map, Option, some, All, Exec, done, ◌>>=◌, read,
  total_of,
}
use ride_hailing_system.Prelude.Pairs.{All2}
use ride_hailing_system.Server.Double.{Double}
use ride_hailing_system.Client.Stress.{
  ClientResultStatus, status_init, status_success, status_fail_no_driver, status_fail_dos,
  status_fail_other, ClientStatusEntry, Attempt, unconnected, answered, Thread, World, run_schedule,
  start_world, avg_latency,
}
use ride_hailing_system.Client.Stress.History.{
  is_request, is_ride, is_failure, first_failure, or_no_driver, verdict, Account, attempts_of,
  thread_of, entry_of, IsAccount, HasHistory,
}
use ride_hailing_system.Client.Stress.Account.{run_schedule-HasHistory}
use ride_hailing_system.Client.Stress.Totals.{turns_of, IsTold, run_schedule-IsTold}

-- "SUCCESS", "FAILED (DoS Blocked)", "FAILED (No Driver/Conn)" and "INCOMPLETE".
pub data StatusText : Type 0 where
  text_success text_dos text_no_driver text_incomplete : StatusText

-- The `switch`, with its default.
pub status_str : ClientResultStatus → StatusText
status_str status_init = text_incomplete
status_str status_success = text_success
status_str status_fail_no_driver = text_no_driver
status_str status_fail_dos = text_dos
status_str status_fail_other = text_incomplete

pub record TableLine : Type 0 where
  pub client_id : ℕ
  pub status : StatusText

-- The lines from entry `i` on.
pub print_client_status_table : ℕ → ℕ → List ClientStatusEntry → Exec (List TableLine)
print_client_status_table zero i status_list = done []
print_client_status_table (suc n) i status_list = do
  e ← read status_list i
  lines ← print_client_status_table n (i + 1) status_list
  done (record { client_id = e.client_id; status = status_str e.final_status } ∷ lines)

-- The table and the summary; the duration is left out.
pub record StressReport (W : Type 0) : Type 0 where
  pub lines : List TableLine
  pub total_requests : ℕ
  pub success_count : ℕ
  pub fail_count : ℕ
  pub average : Option W

pub print_report : {W : Type 0} ⦃d : Double W⦄ → ℕ → World W → Exec (StressReport W)
print_report num_clients w = do
  lines ← print_client_status_table num_clients 0 w.status_list
  done (record {
    lines = lines;
    total_requests = w.stats.total_requests;
    success_count = w.stats.success_count;
    fail_count = w.stats.fail_count;
    average = avg_latency w.stats;
  })

-- What the line of a client must say at the end: a success if one of its requests was a ride, else
-- what the first failed request met.
abbrev pub failure_text : ClientResultStatus → StatusText
failure_text status_fail_dos = text_dos
failure_text status_init = text_no_driver
failure_text status_success = text_no_driver
failure_text status_fail_no_driver = text_no_driver
failure_text status_fail_other = text_no_driver

-- The first failure is a block or another one, or there is none.
abbrev is_failure_status : ClientResultStatus → Bool
is_failure_status status_init = true
is_failure_status status_success = false
is_failure_status status_fail_no_driver = true
is_failure_status status_fail_dos = true
is_failure_status status_fail_other = false

status_str-failure :
    (st : ClientResultStatus)
    → is_failure_status st ≡ true
    → status_str (or_no_driver st) ≡ failure_text st
unfolding status_str
status_str-failure status_init h = refl
status_str-failure status_success h = cc
status_str-failure status_fail_no_driver h = refl
status_str-failure status_fail_dos h = refl
status_str-failure status_fail_other h = cc

module _ {W : Type 0} where
  abbrev pub client_text : List (Attempt W) → StatusText
  client_text attempts =
      if ltb 0 (total_of is_ride attempts)
      then text_success
      else failure_text (first_failure attempts)

  abbrev pub IsLineOf : TableLine → List (Attempt W) → Type 0
  IsLineOf line attempts = line.status ≡ client_text attempts

  first_failure_lem : (made : List (Attempt W)) → is_failure_status (first_failure made) ≡ true
  first_failure_lem [] = refl
  first_failure_lem (unconnected ∷ made) = first_failure_lem made
  first_failure_lem (answered r start end ∷ made) = elim (Bool-cases (eqb_ℤ r (pos 0))) [
    | inl ride ↦ rw ride (first_failure_lem made)
    | inr other ↦ elim (Bool-cases (eqb_ℤ r (negsuc 1))) [
      | inl blocked ↦ rw (other, blocked) refl
      | inr refused ↦ rw (other, refused) refl
    ]
  ]

  status_str-verdict : (made : List (Attempt W)) → status_str (verdict made) ≡ client_text made
  unfolding status_str
  status_str-verdict made = elim (Bool-cases (ltb 0 (total_of is_ride made))) [
    | inl some_ride ↦ rw some_ride refl
    | inr no_ride ↦ rw no_ride (status_str-failure (first_failure made) (first_failure_lem made))
  ]

abbrev line_of : ClientStatusEntry → TableLine
line_of e = record { client_id = e.client_id; status = status_str e.final_status }

table_lem :
    (before entries : List ClientStatusEntry)
    → print_client_status_table (length entries) (length before) (before ++ entries)
      ≡ done (map line_of entries)
unfolding print_client_status_table
table_lem before [] = refl
table_lem before (e ∷ entries) =
    let size : length (before ++ (e ∷ [])) ≡ length before + 1 =
      omega (arith, length-append before (e ∷ [])) in
    let next = table_lem (before ++ (e ∷ [])) entries in
    rw (get_elem?-append before entries e)
      (rw (rw (size, append_assoc before (e ∷ []) entries) at next) refl)

module _ {W : Type 0} where
  abbrev HasEnded : Thread W → Type 0
  HasEnded t = t.finished ≡ true

  -- A thread that has ended has made all its attempts.
  made_all : (a : Account W) → IsAccount a → a.thread.finished ≡ true → a.made ≡ a.attempts
  made_all a good ended =
      sym (append-nil a.made) ∙ ap (λ l. a.made ++ l) (sym (good.all_made ended)) ∙ good.split

  lines_lem :
      (accounts : List (Account W))
      → All IsAccount accounts
      → All HasEnded (map thread_of accounts)
      → All2 IsLineOf (map line_of (map entry_of accounts)) (map attempts_of accounts)
  lines_lem [] each ended = tt
  lines_lem (a ∷ accounts) (good, each) (ended, all) = (
    rw (rw ended at good.says) (status_str-verdict a.made) ∙ ap client_text (made_all a good ended),
    lines_lem accounts each all,
  )

  totals_lem :
      (f : Attempt W → ℕ) (accounts : List (Account W))
      → All IsAccount accounts
      → All HasEnded (map thread_of accounts)
      → total_of (λ (a : Account W). total_of f a.made) accounts
        ≡ total_of (total_of f) (map attempts_of accounts)
  totals_lem f [] each ended = refl
  totals_lem f (a ∷ accounts) (good, each) (ended, all) =
      omega (arith, ap (total_of f) (made_all a good ended), totals_lem f accounts each all)

module _ {W : Type 0} ⦃d : Double W⦄ where
  all_ended :
      (entries : List ClientStatusEntry) (threads : List (Thread W))
      → All2 IsTold entries threads
      → All HasEnded threads
  all_ended [] [] all = tt
  all_ended [] (t ∷ threads) all = elim all [ ]
  all_ended (e ∷ entries) [] all = elim all [ ]
  all_ended (e ∷ entries) (t ∷ threads) all = (all.0.ended, all_ended entries threads all.1)

  -- If every thread of the stress client gets more turns than it makes attempts, in any order, then
  -- the table of results is printed without a crash, and it does not depend on the order: the line
  -- of each client says success if one of its attempts was confirmed, else that it was blocked if
  -- its first failed request was, else that there was no driver; and the summary has the numbers of
  -- the answered attempts of all clients, of those that were confirmed, and of those that were not.
  pub print_report-AreLines :
      (schedule : List ℕ) (clients : List (List (Attempt W)))
      → All (λ i. i < length clients) schedule
      → ((j : ℕ) (attempts : List (Attempt W))
          → get_elem? clients j ≡ some attempts
          → length attempts < turns_of j schedule)
      → (w' : World W) × (r : StressReport W) × (run_schedule schedule (start_world clients)
          ≡ done w')
        × (print_report (length clients) w' ≡ done r)
        × All2 IsLineOf r.lines clients
        × (r.total_requests ≡ total_of (total_of is_request) clients)
        × (r.success_count ≡ total_of (total_of is_ride) clients)
        × (r.fail_count ≡ total_of (total_of is_failure) clients)
  unfolding print_report
  print_report-AreLines schedule clients small fair =
      let (w', run, told) = run_schedule-IsTold schedule clients small fair in
      let (w2, accounts, run2, all, h2) = run_schedule-HasHistory schedule clients small in
      let same : w2 ≡ w' = cc in
      let h : HasHistory w' accounts = rw same at h2 in
      let ended = rw h.threads at (all_ended w'.status_list w'.threads told) in
      let size : length clients ≡ length w'.status_list =
        ap length (sym all)
        ∙ length-map attempts_of accounts
        ∙ sym (length-map entry_of accounts)
        ∙ ap length (sym h.entries) in
      (
        w',
        record {
          lines = map line_of w'.status_list;
          total_requests = w'.stats.total_requests;
          success_count = w'.stats.success_count;
          fail_count = w'.stats.fail_count;
          average = avg_latency w'.stats;
        },
        run,
        rw (size, table_lem [] w'.status_list) refl,
        rw (h.entries, ← all) (lines_lem accounts h.each ended),
        rw (← all) (h.counted.requests ∙ totals_lem is_request accounts h.each ended),
        rw (← all) (h.counted.rides ∙ totals_lem is_ride accounts h.each ended),
        rw (← all) (h.counted.failures ∙ totals_lem is_failure accounts h.each ended),
      )
