-- ===== src/Client/Stress/Agreement.antt =====
-- The agreement of the statistics, the table and the threads (client/stress_client.c), and a step of
-- one thread.
use ride_hailing_system.Prelude.{
  ℕ, suc, ◌+◌, ◌-◌, ◌<◌, ◌≡◌, ◌≢◌, refl, ap, arith, true, false, if◌then◌else◌, Bool-cases, inl,
  inr, List, [], ◌∷◌, length, get_elem?, set, length-set, get_elem?-set_self, get_elem?-set_ne,
  get_elem?-some, get_elem?-lt, total_of, total_of-set, Option, none, some, done, ℤ,
}
use ride_hailing_system.Prelude.Pairs.{All2, All2-get_elem?, All2-set, All2-set_right}
use ride_hailing_system.Server.Double.{Double}
use ride_hailing_system.Client.Stress.{
  ClientStats, Attempt, Thread, World, is_success, note_result, conclude, count_result, advance,
  step_thread, unconnected, answered,
}
use ride_hailing_system.Client.Stress.Steps.{Fits, Fits-note_result, Fits-conclude}

-- The turns that a thread needs to its end, and those of thread `j`.
abbrev pub turns_left : {W : Type 0} → Option (Thread W) → ℕ
turns_left none = 0
turns_left (some t) = if t.finished then 0 else suc (length t.attempts)

abbrev pub local_count : {W : Type 0} → Thread W → ℕ
local_count t = t.success_local_count

module _ (W : Type 0) where
  -- The total is that of the successes and the failures; the successes are those of the threads
  -- together; the entry of a thread fits whether it has ended and whether it has had a success.
  pub record Agrees (w : World W) : Type 0 where
    pub counted : w.stats.total_requests ≡ w.stats.success_count + w.stats.fail_count
    pub shared : total_of local_count w.threads ≡ w.stats.success_count
    pub shown : All2 Fits w.status_list w.threads

module _ {W : Type 0} where
  -- After a step of thread `i` of `w`.
  pub record Stepped (i : ℕ) (w w' : World W) : Type 0 where
    pub agrees : Agrees W w'
    pub same_length : length w'.threads ≡ length w.threads
    pub own : turns_left (get_elem? w'.threads i) ≡ turns_left (get_elem? w.threads i) - 1
    pub others : (j : ℕ) → i ≢ j → get_elem? w'.threads j ≡ get_elem? w.threads j

  -- A step writes `v` over thread `i`, which runs and has the attempts `rest` left but for one.
  turns_left-set :
      (xs : List (Thread W)) (i : ℕ) (t v : Thread W)
      → get_elem? xs i ≡ some t
      → turns_left (some v) ≡ turns_left (some t) - 1
      → turns_left (get_elem? (set xs i v) i) ≡ turns_left (get_elem? xs i) - 1
  turns_left-set xs i t v e h = rw (get_elem?-set_self xs i v (get_elem?-lt xs i e), e, h)

module _ {W : Type 0} ⦃d : Double W⦄ where
  open d use {sub}

  count_result-counted :
      (result : ℤ) (latency : W) (stats : ClientStats W)
      → stats.total_requests ≡ stats.success_count + stats.fail_count
      → (count_result result latency stats).total_requests
        ≡ (count_result result latency stats).success_count
          + (count_result result latency stats).fail_count
  unfolding count_result
  count_result-counted result latency stats h = elim (Bool-cases (is_success result)) [
    | inl well ↦ rw well omega (arith, h)
    | inr ill ↦ rw ill omega (arith, h)
  ]

  count_result-shared :
      (result : ℤ) (latency : W) (stats : ClientStats W) (n m k : ℕ)
      → n ≡ stats.success_count
      → k + m ≡ n + (if is_success result then m + 1 else m)
      → k ≡ (count_result result latency stats).success_count
  unfolding count_result
  count_result-shared result latency stats n m k h e = elim (Bool-cases (is_success result)) [
    | inl well ↦ rw well omega (arith, h, ap (λ b. n + (if b then m + 1 else m)) well, e)
    | inr ill ↦ rw ill omega (arith, h, ap (λ b. n + (if b then m + 1 else m)) ill, e)
  ]

  -- A turn of a thread that runs, in an agreeing world, is done and keeps the agreement.
  advance-Agrees :
      (i : ℕ) (w : World W) (t : Thread W) (attempts : List (Attempt W))
      → get_elem? w.threads i ≡ some t
      → t.finished ≡ false
      → t.attempts ≡ attempts
      → Agrees W w
      → (w' : World W) × (advance i w t attempts ≡ done w') × Stepped i w w'
  unfolding advance
  advance-Agrees i w t [] et running ea h =
      let (e, ee, fit) = All2-get_elem? Fits w.status_list w.threads i h.shown et in
      let v : Thread W = record t { finished = true } in
      (
        record w {
          status_list = set w.status_list i (conclude t.success_local_count e);
          threads = set w.threads i v;
        },
        rw (ee, et),
        record {
          agrees = record {
            counted = h.counted;
            shared = omega (arith, h.shared, total_of-set local_count w.threads i v et);
            shown =
                All2-set Fits w.status_list w.threads i (conclude t.success_local_count e) v h.shown
                  (Fits-conclude e t running fit);
          };
          same_length = length-set w.threads i v;
          own = turns_left-set w.threads i t v et (rw (running, ea));
          others = λ j ne. get_elem?-set_ne w.threads i j v ne;
        },
      )
  advance-Agrees i w t (unconnected ∷ rest) et running ea h =
      let (e, ee, fit) = All2-get_elem? Fits w.status_list w.threads i h.shown et in
      let v : Thread W = record t { attempts = rest } in
      (
        record w { threads = set w.threads i v },
        rw et,
        record {
          agrees = record {
            counted = h.counted;
            shared = omega (arith, h.shared, total_of-set local_count w.threads i v et);
            shown = All2-set_right Fits w.status_list w.threads i v h.shown ee fit;
          };
          same_length = length-set w.threads i v;
          own = turns_left-set w.threads i t v et (rw (running, ea) omega arith);
          others = λ j ne. get_elem?-set_ne w.threads i j v ne;
        },
      )
  advance-Agrees i w t (answered result start end ∷ rest) et running ea h =
      let (e, ee, fit) = All2-get_elem? Fits w.status_list w.threads i h.shown et in
      let n : ℕ = if is_success result then t.success_local_count + 1 else t.success_local_count in
      let v : Thread W = record t { attempts = rest; success_local_count = n } in
      (
        record {
          stats = count_result result (sub end start) w.stats;
          status_list = set w.status_list i (note_result result e);
          threads = set w.threads i v;
        },
        rw (ee, et),
        record {
          agrees = record {
            counted = count_result-counted result (sub end start) w.stats h.counted;
            shared =
                count_result-shared result (sub end start) w.stats (total_of local_count w.threads)
                  t.success_local_count (total_of local_count (set w.threads i v)) h.shared
                  (total_of-set local_count w.threads i v et);
            shown =
                All2-set Fits w.status_list w.threads i (note_result result e) v h.shown
                  (Fits-note_result result e t rest n running fit);
          };
          same_length = length-set w.threads i v;
          own = turns_left-set w.threads i t v et (rw (running, ea) omega arith);
          others = λ j ne. get_elem?-set_ne w.threads i j v ne;
        },
      )

  -- The same for a thread that may have ended: its turn does nothing then.
  pub step_thread-Agrees :
      (i : ℕ) (w : World W)
      → i < length w.threads
      → Agrees W w
      → (w' : World W) × (step_thread i w ≡ done w') × Stepped i w w'
  unfolding step_thread
  step_thread-Agrees i w small h =
      let (t, et) = get_elem?-some w.threads i small in
      elim (Bool-cases t.finished) [
        | inl ended ↦ (
          w,
          rw (et, ended),
          record { agrees = h; same_length = refl; own = rw (et, ended); others = λ j ne. refl },
        )
        | inr running ↦
            let (w', run, after) = advance-Agrees i w t t.attempts et running refl h in
            (w', rw (et, running, run), after)
      ]
