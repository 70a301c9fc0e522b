-- ===== src/Client/Stress/Turn.antt =====
-- A turn of a thread of src/client/stress_client.c against what the thread has met.
use mathlib.Core.List.{append_assoc}
use mathlib.Core.Bool.{false≢true}
use ride_hailing_system.Prelude.{
  ℕ, ◌+◌, ◌≡◌, refl, sym, ap, ◌∙◌, arith, true, false, if◌then◌else◌, Bool-cases, inl, inr, List,
  [], ◌∷◌, ◌++◌, map, get_elem?, set, some, All-set, All-get_elem?, total_of, total_of-set, ℤ, pos,
  eqb_ℤ, done,
}
use ride_hailing_system.Server.Double.{Double}
use ride_hailing_system.Client.Stress.{
  ClientStatusEntry, ClientStats, Attempt, unconnected, answered, Thread, World, is_success,
  note_result, conclude, count_result, advance,
}
use ride_hailing_system.Client.Stress.History.{
  is_request, is_ride, is_failure, first_failure, Account, attempts_of, thread_of, entry_of,
  requests_of, rides_of, failures_of, IsAccount, HasHistory,
}
use ride_hailing_system.Client.Stress.Notes.{
  get_elem?-map, set-map, map-set_same, set_at, total_of-append, first_failure_unconnected,
  conclude-verdict, note_result-says,
}

module _ {W : Type 0} where
  -- The account of the thread after an attempt.
  abbrev with_attempt : Account W → Thread W → ClientStatusEntry → Attempt W → Account W
  with_attempt a t e attempt = record a { made = a.made ++ (attempt ∷ []); thread = t; entry = e }

  attempt-IsAccount :
      (a : Account W) (attempt : Attempt W) (rest : List (Attempt W)) (n : ℕ)
      (e : ClientStatusEntry)
      → IsAccount a
      → a.thread.finished ≡ false
      → a.thread.attempts ≡ attempt ∷ rest
      → n ≡ total_of is_ride a.made + is_ride attempt
      → e.final_status ≡ first_failure (a.made ++ (attempt ∷ []))
      → IsAccount
          (with_attempt a (record a.thread { attempts = rest; success_local_count = n }) e attempt)
  attempt-IsAccount a attempt rest n e good running left rides says = record {
    split = append_assoc a.made (attempt ∷ []) rest ∙ ap (λ l. a.made ++ l) (sym left) ∙ good.split;
    rides = omega (arith, rides, total_of-append is_ride a.made (attempt ∷ []));
    says = rw running says;
    all_made = λ ended. absurd (false≢true (sym running ∙ ended));
  }

  pub thread_at :
      (w : World W) (accounts : List (Account W)) (i : ℕ) {a : Account W}
      → HasHistory w accounts
      → get_elem? accounts i ≡ some a
      → get_elem? w.threads i ≡ some a.thread
  thread_at w accounts i h at =
      ap (λ l. get_elem? l i) h.threads ∙ get_elem?-map thread_of accounts i at

  entry_at :
      (w : World W) (accounts : List (Account W)) (i : ℕ) {a : Account W}
      → HasHistory w accounts
      → get_elem? accounts i ≡ some a
      → get_elem? w.status_list i ≡ some a.entry
  entry_at w accounts i h at =
      ap (λ l. get_elem? l i) h.entries ∙ get_elem?-map entry_of accounts i at

  -- The thread of account `a` has its turn.
  module _ (w w' : World W) (accounts : List (Account W)) (i : ℕ) (a a' : Account W)
      (h : HasHistory w accounts) (at : get_elem? accounts i ≡ some a) where
    HasHistory-set :
        IsAccount a'
        → w'.threads ≡ set w.threads i a'.thread
        → w'.status_list ≡ set w.status_list i a'.entry
        → w'.stats.total_requests + requests_of a ≡ w.stats.total_requests + requests_of a'
        → w'.stats.success_count + rides_of a ≡ w.stats.success_count + rides_of a'
        → w'.stats.fail_count + failures_of a ≡ w.stats.fail_count + failures_of a'
        → HasHistory w' (set accounts i a')
    HasHistory-set good threads entries requests rides failures = record {
      threads = threads ∙ ap (λ l. set l i a'.thread) h.threads ∙ set-map thread_of accounts i a';
      entries = entries ∙ ap (λ l. set l i a'.entry) h.entries ∙ set-map entry_of accounts i a';
      each = All-set IsAccount accounts i a' h.each good;
      counted = record {
        requests =
            omega (arith, requests, h.counted.requests, total_of-set requests_of accounts i a' at);
        rides = omega (arith, rides, h.counted.rides, total_of-set rides_of accounts i a' at);
        failures =
            omega (arith, failures, h.counted.failures, total_of-set failures_of accounts i a' at);
      };
    }

module _ {W : Type 0} ⦃d : Double W⦄ where
  open d use {sub}

  count_result-requests :
      (r : ℤ) (latency start end : W) (stats : ClientStats W)
      → ((count_result r latency stats).total_requests ≡ stats.total_requests + 1)
        × ((count_result r latency stats).success_count
            ≡ stats.success_count + is_ride (answered r start end))
        × ((count_result r latency stats).fail_count
            ≡ stats.fail_count + is_failure (answered r start end))
  unfolding count_result
  count_result-requests r latency start end stats = elim (Bool-cases (eqb_ℤ r (pos 0))) [
    | inl ride ↦ rw ride (refl, refl, omega arith)
    | inr other ↦ rw other (refl, omega arith, refl)
  ]

  count_own :
      (n : ℕ) (r : ℤ) (start end : W) {m : ℕ}
      → n ≡ m
      → (if is_success r then n + 1 else n) ≡ m + is_ride (answered r start end)
  count_own n r start end e = elim (Bool-cases (eqb_ℤ r (pos 0))) [
    | inl ride ↦ rw ride (omega (arith, e))
    | inr other ↦ rw other (omega (arith, e))
  ]

  -- What a turn of thread `i` leads to.
  abbrev pub IsNext : ℕ → World W → List (Account W) → World W → Type 0
  IsNext i w accounts w' =
      (accounts' : List (Account W)) × (map attempts_of accounts' ≡ map attempts_of accounts)
      × HasHistory w' accounts'

  pub advance-HasHistory :
      (i : ℕ) (w : World W) (accounts : List (Account W)) (a : Account W)
      (attempts : List (Attempt W))
      → HasHistory w accounts
      → get_elem? accounts i ≡ some a
      → a.thread.finished ≡ false
      → a.thread.attempts ≡ attempts
      → (w' : World W) × (advance i w a.thread attempts ≡ done w') × IsNext i w accounts w'
  unfolding advance
  advance-HasHistory i w accounts a [] h at running left =
      let good = All-get_elem? IsAccount accounts i h.each at in
      let et = thread_at w accounts i h at in
      let ee = entry_at w accounts i h at in
      let e = conclude a.thread.success_local_count a.entry in
      let t : Thread W = record a.thread { finished = true } in
      let a' : Account W = record a { thread = t; entry = e } in
      let w' : World W = record w {
        status_list = set w.status_list i e;
        threads = set w.threads i t;
      } in
      let says =
        conclude-verdict a.thread.success_local_count a.entry a.made good.rides
          (rw running at good.says) in
      (
        w',
        rw (ee, et) refl,
        (
          set accounts i a',
          map-set_same attempts_of accounts i a' at refl,
          HasHistory-set w w' accounts i a a' h at
              (record { split = good.split; rides = good.rides; says = says; all_made = λ _. left })
              refl refl refl refl refl,
        ),
      )
  advance-HasHistory i w accounts a (unconnected ∷ rest) h at running left =
      let good = All-get_elem? IsAccount accounts i h.each at in
      let et = thread_at w accounts i h at in
      let ee = entry_at w accounts i h at in
      let t : Thread W = record a.thread { attempts = rest } in
      let a' = with_attempt a t a.entry unconnected in
      let w' : World W = record w { threads = set w.threads i t } in
      (
        w',
        rw et refl,
        (
          set accounts i a',
          map-set_same attempts_of accounts i a' at refl,
          HasHistory-set w w' accounts i a a' h at
              (attempt-IsAccount a unconnected rest a.thread.success_local_count a.entry good
                running left (omega (arith, good.rides))
                ((rw running at good.says) ∙ sym (first_failure_unconnected a.made)))
              refl (set_at w.status_list i ee)
              (omega (arith, total_of-append is_request a.made (unconnected ∷ [])))
              (omega (arith, total_of-append is_ride a.made (unconnected ∷ [])))
              (omega (arith, total_of-append is_failure a.made (unconnected ∷ []))),
        ),
      )
  advance-HasHistory i w accounts a (answered r start end ∷ rest) h at running left =
      let good = All-get_elem? IsAccount accounts i h.each at in
      let et = thread_at w accounts i h at in
      let ee = entry_at w accounts i h at in
      let n : ℕ =
        if is_success r then a.thread.success_local_count + 1 else a.thread.success_local_count in
      let e = note_result r a.entry in
      let t : Thread W = record a.thread { attempts = rest; success_local_count = n } in
      let attempt : Attempt W = answered r start end in
      let (requests, rides, failures) = count_result-requests r (sub end start) start end w.stats in
      let a' = with_attempt a t e attempt in
      let w' : World W = record {
        stats = count_result r (sub end start) w.stats;
        status_list = set w.status_list i e;
        threads = set w.threads i t;
      } in
      (
        w',
        rw (ee, et) refl,
        (
          set accounts i a',
          map-set_same attempts_of accounts i a' at refl,
          HasHistory-set w w' accounts i a a' h at
              (attempt-IsAccount a attempt rest n e good running left
                (count_own a.thread.success_local_count r start end good.rides)
                (note_result-says a.made r start end a.entry (rw running at good.says)))
              refl refl (omega (arith, requests, total_of-append is_request a.made (attempt ∷ [])))
              (omega (arith, rides, total_of-append is_ride a.made (attempt ∷ [])))
              (omega (arith, failures, total_of-append is_failure a.made (attempt ∷ []))),
        ),
      )
