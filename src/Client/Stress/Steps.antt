-- ===== src/Client/Stress/Steps.antt =====
-- One step of one thread (client/stress_client.c, `stress_client_thread_func`): the agreement of
-- the statistics, the table and the threads, and what a step does to it.
use ride_hailing_system.Prelude.{
  ℕ, ◌≡◌, refl, sym, ap, ◌∙◌, Bool, true, false, not, ◌&&◌, ltb, Bool-cases, inl, inr, List, ℤ,
  negsuc, eqb_ℤ,
}
use ride_hailing_system.Client.Stress.{
  ClientResultStatus, ClientStatusEntry, Attempt, Thread, is_success, note_failure, note_result,
  conclude, status_init, status_success, status_fail_no_driver, status_fail_dos, status_fail_other,
}

-- What an entry of the table may say, of a thread that has ended or not and has had a success or
-- not.
abbrev pub fits : Bool → Bool → ClientResultStatus → Bool
fits ended succeeded status_init = not ended
fits ended succeeded status_success = ended && succeeded
fits ended succeeded status_fail_no_driver = not (ended && succeeded)
fits ended succeeded status_fail_dos = not (ended && succeeded)
fits ended succeeded status_fail_other = false

fits-note_failure :
    (result : ℤ) (a b : Bool) (st : ClientResultStatus)
    → fits false a st ≡ true
    → fits false b (note_failure result st) ≡ true
unfolding note_failure
fits-note_failure result a b status_init h = elim (Bool-cases (eqb_ℤ result (negsuc 1))) [
  | inl blocked ↦ rw blocked
  | inr other ↦ rw other
]
fits-note_failure result a b status_success h = cc
fits-note_failure result a b status_fail_no_driver h = refl
fits-note_failure result a b status_fail_dos h = refl
fits-note_failure result a b status_fail_other h = cc

fits_open : (a b : Bool) (st : ClientResultStatus) → fits false a st ≡ true → fits false b st ≡ true
fits_open a b status_init h = refl
fits_open a b status_success h = cc
fits_open a b status_fail_no_driver h = refl
fits_open a b status_fail_dos h = refl
fits_open a b status_fail_other h = cc

fits_ended :
    (st : ClientResultStatus)
    → fits false false st ≡ true
    → fits true false (note_failure (negsuc 0) st) ≡ true
unfolding note_failure
fits_ended status_init h = refl
fits_ended status_success h = cc
fits_ended status_fail_no_driver h = refl
fits_ended status_fail_dos h = refl
fits_ended status_fail_other h = cc

module _ {W : Type 0} where
  -- The entry of a thread fits whether it has ended and whether it has had a success.
  abbrev pub Fits : ClientStatusEntry → Thread W → Type 0
  Fits e t = fits t.finished (ltb 0 t.success_local_count) e.final_status ≡ true

  -- The same, of a thread that runs.
  Fits-running :
      (e : ClientStatusEntry) (t : Thread W)
      → t.finished ≡ false
      → Fits e t
      → fits false (ltb 0 t.success_local_count) e.final_status ≡ true
  Fits-running e t running h =
      sym (ap (λ ended. fits ended (ltb 0 t.success_local_count) e.final_status) running) ∙ h

  pub Fits-note_result :
      (result : ℤ) (e : ClientStatusEntry) (t : Thread W) (rest : List (Attempt W)) (n : ℕ)
      → t.finished ≡ false
      → Fits e t
      → Fits (note_result result e) (record t { attempts = rest; success_local_count = n })
  unfolding note_result
  Fits-note_result result e t rest n running h =
      let before = Fits-running e t running h in
      let a = ltb 0 t.success_local_count in
      elim (Bool-cases (is_success result)) [
        | inl well ↦ rw (well, running, fits_open a (ltb 0 n) e.final_status before)
        | inr ill ↦ rw (ill, running, fits-note_failure result a (ltb 0 n) e.final_status before)
      ]

  pub Fits-conclude :
      (e : ClientStatusEntry) (t : Thread W)
      → t.finished ≡ false
      → Fits e t
      → Fits (conclude t.success_local_count e) (record t { finished = true })
  unfolding conclude
  Fits-conclude e t running h = elim (Bool-cases (ltb 0 t.success_local_count)) [
    | inl some_success ↦ rw some_success
    | inr none_yet ↦ rw (
      none_yet,
      fits_ended e.final_status
          (sym (ap (λ a. fits false a e.final_status) none_yet) ∙ Fits-running e t running h),
    )
  ]
