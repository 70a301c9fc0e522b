-- ===== src/Server/System/Budget.antt =====
-- Bounds on the critical sections that a program enters, and where it crashes.
use ride_hailing_system.Prelude.{ℕ, zero, suc, ◌+◌, ◌≤◌, ◌≡◌, ap, arith, true, false, length}
use ride_hailing_system.Server.Ride.{Reply}
use ride_hailing_system.Server.System.{
  Program, ended, failed, limit_call, ride_call, join_call, then_run,
}

module _ {W A : Type 0} where
  -- The program ends after at most `n` critical sections, whatever they answer, except that it
  -- crashes as soon as the limiter blocks a client.
  abbrev pub EndsIn : ℕ → Program W A → Type 0
  EndsIn n (ended a) = Unit
  EndsIn n failed = ⊥
  EndsIn zero (limit_call client_id now k) = ⊥
  EndsIn zero (ride_call client_id rand1 rand2 k) = ⊥
  EndsIn zero (join_call body k) = ⊥
  EndsIn (suc n) (limit_call client_id now k) = (k true ≡ failed) × EndsIn n (k false)
  EndsIn (suc n) (ride_call client_id rand1 rand2 k) = (reply : Reply W) → EndsIn n (k reply)
  EndsIn (suc n) (join_call body k) = (4 ≤ length body) × EndsIn n k

  pub EndsIn-more : (n m : ℕ) (p : Program W A) → n ≤ m → EndsIn n p → EndsIn m p
  EndsIn-more n m (ended a) h e = tt
  EndsIn-more n m failed h e = elim e [ ]
  EndsIn-more zero m (limit_call client_id now k) h e = elim e [ ]
  EndsIn-more (suc n) zero (limit_call client_id now k) h e = elim h [ ]
  EndsIn-more zero m (ride_call client_id rand1 rand2 k) h e = elim e [ ]
  EndsIn-more (suc n) zero (ride_call client_id rand1 rand2 k) h e = elim h [ ]
  EndsIn-more zero m (join_call body k) h e = elim e [ ]
  EndsIn-more (suc n) zero (join_call body k) h e = elim h [ ]
  EndsIn-more (suc n) (suc m) (limit_call client_id now k) h (crashes, goes_on) =
      (crashes, EndsIn-more n m (k false) (omega arith) goes_on)
  EndsIn-more (suc n) (suc m) (ride_call client_id rand1 rand2 k) h e =
      λ reply. EndsIn-more n m (k reply) (omega arith) (e reply)
  EndsIn-more (suc n) (suc m) (join_call body k) h (long, e) =
      (long, EndsIn-more n m k (omega arith) e)

module _ {W A B : Type 0} where
  pub then_run-EndsIn :
      (n m t : ℕ) (p : Program W A) (k : A → Program W B)
      → n + m ≤ t
      → EndsIn n p
      → ((a : A) → EndsIn m (k a))
      → EndsIn t (then_run p k)
  unfolding then_run
  then_run-EndsIn n m t (ended a) k h e next = EndsIn-more m t (k a) (omega arith) (next a)
  then_run-EndsIn n m t failed k h e next = elim e [ ]
  then_run-EndsIn zero m t (limit_call client_id now p) k h e next = elim e [ ]
  then_run-EndsIn zero m t (ride_call client_id rand1 rand2 p) k h e next = elim e [ ]
  then_run-EndsIn zero m t (join_call body p) k h e next = elim e [ ]
  then_run-EndsIn (suc n) m zero p k h e next = absurd (omega arith)
  then_run-EndsIn (suc n) m (suc t) (limit_call client_id now p) k h (crashes, goes_on) next =
      (ap (λ q. then_run q k) crashes, then_run-EndsIn n m t (p false) k (omega arith) goes_on next)
  then_run-EndsIn (suc n) m (suc t) (ride_call client_id rand1 rand2 p) k h e next =
      λ reply. then_run-EndsIn n m t (p reply) k (omega arith) (e reply) next
  then_run-EndsIn (suc n) m (suc t) (join_call body p) k h (long, e) next =
      (long, then_run-EndsIn n m t p k (omega arith) e next)
