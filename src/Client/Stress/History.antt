-- ===== src/Client/Stress/History.antt =====
-- What the threads of src/client/stress_client.c have met, and what the statistics and the table must
-- say of it.
use ride_hailing_system.Prelude.{
  ℕ, ◌≡◌, true, ltb, if◌then◌else◌, List, [], ◌∷◌, ◌++◌, map, All, total_of, pos, negsuc, eqb_ℤ,
}
use ride_hailing_system.Client.Stress.{
  ClientResultStatus, status_init, status_success, status_fail_no_driver, status_fail_dos,
  status_fail_other, ClientStatusEntry, ClientStats, Attempt, unconnected, answered, Thread, World,
}

-- A thread with no success and no failed request has never been connected.
abbrev pub or_no_driver : ClientResultStatus → ClientResultStatus
or_no_driver status_init = status_fail_no_driver
or_no_driver status_success = status_success
or_no_driver status_fail_no_driver = status_fail_no_driver
or_no_driver status_fail_dos = status_fail_dos
or_no_driver status_fail_other = status_fail_other

module _ {W : Type 0} where
  -- A request that was answered, one that was confirmed, and one that was not.
  abbrev pub is_request : Attempt W → ℕ
  is_request unconnected = 0
  is_request (answered result start end) = 1

  abbrev pub is_ride : Attempt W → ℕ
  is_ride unconnected = 0
  is_ride (answered result start end) = if eqb_ℤ result (pos 0) then 1 else 0

  abbrev pub is_failure : Attempt W → ℕ
  is_failure unconnected = 0
  is_failure (answered result start end) = if eqb_ℤ result (pos 0) then 0 else 1

  -- What the first request that failed had met, if there is one: -2 is a blocked request.
  abbrev pub first_failure : List (Attempt W) → ClientResultStatus
  first_failure [] = status_init
  first_failure (unconnected ∷ made) = first_failure made
  first_failure (answered result start end ∷ made) =
      let later = first_failure made in
      if eqb_ℤ result (pos 0)
      then later
      else (if eqb_ℤ result (negsuc 1) then status_fail_dos else status_fail_no_driver)

  abbrev pub verdict : List (Attempt W) → ClientResultStatus
  verdict made =
      if ltb 0 (total_of is_ride made) then status_success else or_no_driver (first_failure made)

-- A thread with its entry in the table, all its attempts, and those that it has made.
pub record Account (W : Type 0) : Type 0 where
  pub attempts : List (Attempt W)
  pub made : List (Attempt W)
  pub thread : Thread W
  pub entry : ClientStatusEntry

module _ {W : Type 0} where
  abbrev pub attempts_of : Account W → List (Attempt W)
  attempts_of a = a.attempts

  abbrev pub thread_of : Account W → Thread W
  thread_of a = a.thread

  abbrev pub entry_of : Account W → ClientStatusEntry
  entry_of a = a.entry

  abbrev pub requests_of : Account W → ℕ
  requests_of a = total_of is_request a.made

  abbrev pub rides_of : Account W → ℕ
  rides_of a = total_of is_ride a.made

  abbrev pub failures_of : Account W → ℕ
  failures_of a = total_of is_failure a.made

  -- The thread has made these attempts and has the others left; it has counted its rides; and its
  -- entry says what the first failed request met, or, at the end, the verdict.
  pub record IsAccount (a : Account W) : Type 0 where
    pub split : a.made ++ a.thread.attempts ≡ a.attempts
    pub rides : a.thread.success_local_count ≡ total_of is_ride a.made
    pub says :
        a.entry.final_status ≡ (if a.thread.finished then verdict a.made else first_failure a.made)
    pub all_made : a.thread.finished ≡ true → a.thread.attempts ≡ []

  -- The statistics count what all threads have met.
  pub record AreCounted (stats : ClientStats W) (accounts : List (Account W)) : Type 0 where
    pub requests : stats.total_requests ≡ total_of requests_of accounts
    pub rides : stats.success_count ≡ total_of rides_of accounts
    pub failures : stats.fail_count ≡ total_of failures_of accounts

  pub record HasHistory (w : World W) (accounts : List (Account W)) : Type 0 where
    pub threads : w.threads ≡ map thread_of accounts
    pub entries : w.status_list ≡ map entry_of accounts
    pub each : All IsAccount accounts
    pub counted : AreCounted w.stats accounts
