-- ===== src/Server/Processes/Signals.antt =====
-- Which processes `handle_sigint` of src/server/coordinator.c reaches.
use mathlib.Core.List.{append_assoc, append-nil}
use ride_hailing_system.Prelude.{
  ℕ, zero, suc, ◌+◌, ◌<◌, ◌≤◌, ◌≡◌, ap, ◌∙◌, refl, ◌∙◌, arith, Bool, true, false, List, [], ◌∷◌,
  ◌++◌, length, length-append, set-append, replicate, ℤ, pos, negsuc, ltb_ℤ, Bool-cases, inl, inr,
  eqb_ℤ,
}
use ride_hailing_system.Server.Processes.{
  worker_count, no_workers, fork_workers, Waited, wait_for_workers, watches, coordinate,
  start_coordinator_process, to_kill,
}

-- The first `n` results of `fork` from `i` on.
abbrev pub pids : (ℕ → ℤ) → ℕ → ℕ → List ℤ
pids forks zero i = []
pids forks (suc n) i = forks i ∷ pids forks n (i + 1)

-- A process number.
abbrev pub is_pid : ℤ → Bool
is_pid z = ltb_ℤ (pos 0) z

pid_tests : (z : ℤ) → is_pid z ≡ true → (ltb_ℤ z (pos 0) ≡ false) × (eqb_ℤ z (pos 0) ≡ false)
pid_tests (pos n) h = (ground arith, ground arith)
pid_tests (negsuc n) h = ground arith

no_kill : (n : ℕ) → to_kill (replicate n (pos 0)) ≡ []
no_kill zero = refl
no_kill (suc n) = no_kill n

to_kill-append : (xs ys : List ℤ) → to_kill (xs ++ ys) ≡ to_kill xs ++ to_kill ys
to_kill-append [] ys = refl
to_kill-append (x ∷ xs) ys = elim (Bool-cases (is_pid x)) [
  | inl sent ↦ rw (sent, to_kill-append xs ys) refl
  | inr kept ↦ rw (kept, to_kill-append xs ys) refl
]

to_kill-pids :
    (forks : ℕ → ℤ) (n i : ℕ)
    → ((j : ℕ) → i ≤ j → j < i + n → is_pid (forks j) ≡ true)
    → to_kill (pids forks n i) ≡ pids forks n i
to_kill-pids forks zero i all = refl
to_kill-pids forks (suc n) i all =
    rw
      (
        all i (omega arith) (omega arith),
        to_kill-pids forks n (i + 1) (λ j low high. all j (omega arith) (omega arith)),
      )
      refl

-- `n` successful forks: the array holds the process numbers so far.
fork_workers_lem :
    (forks : ℕ → ℤ) (n left : ℕ) (before : List ℤ) (free : ℕ)
    → ((j : ℕ) → length before ≤ j → j < length before + n → is_pid (forks j) ≡ true)
    → fork_workers forks (n + left) (length before) (before ++ replicate (n + free) (pos 0))
      ≡ fork_workers forks left
          (length before + n)
          (before ++ (pids forks n (length before) ++ replicate free (pos 0)))
unfolding fork_workers
fork_workers_lem forks zero left before free all =
    let e1 : 0 + left ≡ left = omega arith in
    let e2 : 0 + free ≡ free = omega arith in
    let e3 : length before + 0 ≡ length before = omega arith in rw (e1, e2, e3) refl
fork_workers_lem forks (suc n) left before free all =
    let i = length before in
    let pid = forks i in
    let longer = before ++ (pid ∷ []) in
    let size : length longer ≡ i + 1 = omega (arith, length-append before (pid ∷ [])) in
    let e1 : suc n + left ≡ suc (n + left) = omega arith in
    let e2 : suc n + free ≡ suc (n + free) = omega arith in
    let e3 : i + suc n ≡ i + 1 + n = omega arith in
    let (fine, in_parent) = pid_tests pid (all i (omega arith) (omega arith)) in
    let next =
      fork_workers_lem forks n left longer free
        λ j low high. all j (omega (arith, size)) (omega (arith, size)) in
    rw (e1, e2, e3, fine, in_parent, set-append before (replicate (n + free) (pos 0)) (pos 0) pid)
      (rw
        (
          size,
          append_assoc before (pid ∷ []) (replicate (n + free) (pos 0)),
          append_assoc before (pid ∷ []) (pids forks n (i + 1) ++ replicate free (pos 0)),
        )
        at next)

-- After `k` forks that succeeded, the array holds their results and then zeros.
fork_workers-pids :
    (forks : ℕ → ℤ) (k left : ℕ)
    → k + left ≡ worker_count
    → ((j : ℕ) → j < k → is_pid (forks j) ≡ true)
    → fork_workers forks worker_count 0 no_workers
      ≡ fork_workers forks left k (pids forks k 0 ++ replicate left (pos 0))
fork_workers-pids forks k left all_workers all =
    let e : 0 + k ≡ k = omega arith in
    rw (e, all_workers) at (fork_workers_lem forks k left [] left λ j low high. all j (omega arith))

to_kill-started :
    (forks : ℕ → ℤ) (k left : ℕ)
    → ((j : ℕ) → j < k → is_pid (forks j) ≡ true)
    → to_kill (pids forks k 0 ++ replicate left (pos 0)) ≡ pids forks k 0
to_kill-started forks k left all =
    rw
      (
        to_kill-append (pids forks k 0) (replicate left (pos 0)),
        no_kill left,
        to_kill-pids forks k 0 (λ j low high. all j (omega arith)),
      )
      (append-nil (pids forks k 0))

-- Where each `fork` succeeds, the parent watches its workers, and its array says which they are.
pub start_coordinator_process-watches :
    (forks : ℕ → ℤ) (monitor : Bool) (waits : List Waited)
    → ((j : ℕ) → j < worker_count → is_pid (forks j) ≡ true)
    → (workers : List ℤ) × (start_coordinator_process forks monitor waits
        ≡ watches workers monitor (wait_for_workers waits))
      × (to_kill workers ≡ pids forks worker_count 0)
unfolding fork_workers start_coordinator_process
start_coordinator_process-watches forks monitor waits all = (
  pids forks worker_count 0 ++ [],
  ap (coordinate true monitor waits) (fork_workers-pids forks worker_count 0 refl all),
  to_kill-started forks worker_count 0 all,
)
