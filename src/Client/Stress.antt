-- ===== src/Client/Stress.antt =====
-- src/client/stress_client.c: threads that send ride requests, with common statistics and a table of
-- results. One step of a thread is one attempt, or its end: the statistics are written under the
-- lock, and an entry of the table by its own thread only. What an attempt meets is an argument.
pub mod Steps
pub mod Agreement
pub mod Totals
pub mod History
pub mod Notes
pub mod Turn
pub mod Account
pub mod Report
use ride_hailing_system.Prelude.{
  ℕ, zero, suc, ◌+◌, ◌*◌, Bool, true, false, ltb, if◌then◌else◌, List, [], ◌∷◌, length, replicate,
  Option, none, some, Exec, done, ◌>>=◌, read, write, ℤ, pos, negsuc, ltb_ℤ, leb_ℤ, eqb_ℤ, pos_part,
}
use ride_hailing_system.Server.Double.{Double}

pub data ClientResultStatus : Type 0 where
  status_init status_success status_fail_no_driver status_fail_dos status_fail_other :
      ClientResultStatus

pub record ClientStatusEntry : Type 0 where
  pub client_id : ℕ
  pub final_status : ClientResultStatus

-- The counters stay below 50000: at most 5000 threads with 10 requests each.
pub record ClientStats (W : Type 0) : Type 0 where
  pub total_requests : ℕ
  pub success_count : ℕ
  pub fail_count : ℕ
  pub total_latency_ms : W

-- No connection; or the result of `perform_ride_request`, with the times before and after it.
pub data Attempt (W : Type 0) : Type 0 where
  unconnected : Attempt W
  answered : ℤ → W → W → Attempt W

-- A thread: the attempts that it has left, its own count, and whether it has ended.
pub record Thread (W : Type 0) : Type 0 where
  pub attempts : List (Attempt W)
  pub success_local_count : ℕ
  pub finished : Bool

pub record World (W : Type 0) : Type 0 where
  pub stats : ClientStats W
  pub status_list : List ClientStatusEntry
  pub threads : List (Thread W)

abbrev pub is_success : ℤ → Bool
is_success result = eqb_ℤ result (pos 0)

-- A failure is noted in a fresh entry: -2 is a blocked request.
pub note_failure : ℤ → ClientResultStatus → ClientResultStatus
note_failure result status_init =
    if eqb_ℤ result (negsuc 1) then status_fail_dos else status_fail_no_driver
note_failure result status_success = status_success
note_failure result status_fail_no_driver = status_fail_no_driver
note_failure result status_fail_dos = status_fail_dos
note_failure result status_fail_other = status_fail_other

pub note_result : ℤ → ClientStatusEntry → ClientStatusEntry
note_result result e =
    if is_success result then e else record e { final_status = note_failure result e.final_status }

-- At the end of a thread.
pub conclude : ℕ → ClientStatusEntry → ClientStatusEntry
conclude success_local_count e =
    if ltb 0 success_local_count
    then record e { final_status = status_success }
    else record e { final_status = note_failure (negsuc 0) e.final_status }

module _ {W : Type 0} ⦃d : Double W⦄ where
  open d use {lit, add, sub, div, of_int}

  -- The counting under the lock.
  pub count_result : ℤ → W → ClientStats W → ClientStats W
  count_result result latency stats =
      if is_success result
      then record stats {
        total_requests = stats.total_requests + 1;
        success_count = stats.success_count + 1;
        total_latency_ms = add stats.total_latency_ms latency;
      }
      else record stats {
        total_requests = stats.total_requests + 1;
        fail_count = stats.fail_count + 1;
      }

  -- One attempt, or the end, of thread `i`; its entry is `client_id - 1`, which is `i`.
  pub advance : ℕ → World W → Thread W → List (Attempt W) → Exec (World W)
  advance i w t [] = do
    e ← read w.status_list i
    status_list ← write w.status_list i (conclude t.success_local_count e)
    threads ← write w.threads i (record t { finished = true })
    done (record w { status_list = status_list; threads = threads })
  advance i w t (unconnected ∷ rest) = do
    threads ← write w.threads i (record t { attempts = rest })
    done (record w { threads = threads })
  advance i w t (answered result start end ∷ rest) = do
    e ← read w.status_list i
    status_list ← write w.status_list i (note_result result e)
    threads ← write w.threads i (record t {
      attempts = rest;
      success_local_count =
          if is_success result then t.success_local_count + 1 else t.success_local_count;
    })
    done (record {
      stats = count_result result (sub end start) w.stats;
      status_list = status_list;
      threads = threads;
    })

  pub step_thread : ℕ → World W → Exec (World W)
  step_thread i w =
      read w.threads i >>= λ t. if t.finished then done w else advance i w t t.attempts

  -- The steps of the threads, in the order in which they happen.
  pub run_schedule : List ℕ → World W → Exec (World W)
  run_schedule [] w = done w
  run_schedule (i ∷ schedule) w = step_thread i w >>= run_schedule schedule

  -- `main` creates the threads, with what their attempts will meet.
  pub entries_from : ℕ → List (List (Attempt W)) → List ClientStatusEntry
  entries_from i [] = []
  entries_from i (attempts ∷ clients) =
      record { client_id = i + 1; final_status = status_init } ∷ entries_from (i + 1) clients

  pub new_threads : List (List (Attempt W)) → List (Thread W)
  new_threads [] = []
  new_threads (attempts ∷ clients) =
      record { attempts = attempts; success_local_count = 0; finished = false }
      ∷ new_threads clients

  pub start_world : List (List (Attempt W)) → World W
  start_world clients = record {
    stats = record {
      total_requests = 0;
      success_count = 0;
      fail_count = 0;
      total_latency_ms = lit 0 1;
    };
    status_list = entries_from 0 clients;
    threads = new_threads clients;
  }

  -- The average latency is printed if there was a success.
  pub avg_latency : ClientStats W → Option W
  avg_latency stats =
      if ltb 0 stats.success_count
      then some (div stats.total_latency_ms (of_int (pos stats.success_count)))
      else none

-- `num_clients` from the command line, brought into 1 to 5000.
pub clamp_clients : ℤ → ℕ
clamp_clients num_clients =
    if leb_ℤ num_clients (pos 0)
    then 1
    else (if ltb_ℤ (pos 5000) num_clients then 5000 else pos_part num_clients)
