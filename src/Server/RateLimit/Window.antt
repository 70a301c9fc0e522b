-- ===== src/Server/RateLimit/Window.antt =====
-- A call of the limiter within one second.
use mathlib.Core.Bool.{false≢true}
use ride_hailing_system.Prelude.{
  ℕ, zero, suc, ◌<◌, ◌≡◌, ◌≢◌, refl, sym, ap, ◌∙◌, arith, Bool, true, false, ◌||◌, ◌==◌, ltb,
  if◌then◌else◌, Bool-cases, inl, inr, some, get_elem?, get_elem?-some, done, ℤ, pos, negsuc, ltb_ℤ,
  leb_ℤ, pos_part, ◌+ℤ◌,
}
use ride_hailing_system.Server.State.{SharedState, IsSized, max_clients}
use ride_hailing_system.Server.RateLimit.{tally, count_request, check_and_update_rate_limit}
use ride_hailing_system.Server.RateLimit.Tally.{index_within, IsTallied, count_request-IsTallied}

abbrev pub is_client : ℕ → ℤ → Bool
is_client c (pos n) = n == c
is_client c (negsuc n) = false

tally_again : (now k : ℕ) → k < 2147483647 → tally now now (pos k) ≡ pos (suc k)
unfolding tally ◌+ℤ◌
tally_again now k h = ground arith

tally_first : (now t : ℕ) (n : ℤ) → (t == now) ≡ false → tally now t n ≡ pos 1
unfolding tally
tally_first now t n h = rw h

-- What the guard on the client's number says of the index.
is_client_out :
    (c : ℕ)
    → 0 < c
    → c < max_clients
    → (x : ℤ) → (leb_ℤ x (pos 0) || leb_ℤ (pos max_clients) x) ≡ true
    → is_client c x ≡ false
is_client_out c hp hs (pos n) h = ground arith
is_client_out c hp hs (negsuc n) h = refl

is_client_own : (c : ℕ) (x : ℤ) → is_client c x ≡ true → pos_part x ≡ c
is_client_own c (pos n) h = ground arith
is_client_own c (negsuc n) h = cc

is_client_other :
    (c : ℕ) (x : ℤ)
    → (leb_ℤ x (pos 0) || leb_ℤ (pos max_clients) x) ≡ false
    → is_client c x ≡ false
    → pos_part x ≢ c
is_client_other c (pos n) within h = ground arith
is_client_other c (negsuc n) within h = ground arith

module _ {W : Type 0} where
  -- Client `c` has called `k` times in the second `now`.
  abbrev pub HasCalled : ℕ → ℕ → ℕ → SharedState W → Type 0
  HasCalled c now zero s =
      (t : ℕ) × (get_elem? s.client_last_seen c ≡ some t) × ((t == now) ≡ false)
  HasCalled c now (suc k) s =
      (get_elem? s.client_last_seen c ≡ some now)
      × (get_elem? s.client_req_count c ≡ some (pos (suc k)))

  module _ (now c : ℕ) (c_pos : 0 < c) (c_small : c < max_clients) where
    -- A call of `c` itself is counted, and blocked from the fourth on.
    own_call :
        (k : ℕ) (s : SharedState W)
        → IsSized W s
        → HasCalled c now k s
        → k < 2147483647
        → (s' : SharedState W) × (count_request c now s ≡ done (s', ltb 3 (suc k)))
          × IsSized W s'
          × HasCalled c now (suc k) s'
    own_call zero s size (t, et, ne) small =
        let (n, en) = get_elem?-some s.client_req_count c (omega (arith, size)) in
        let (s', e, tallied) = count_request-IsTallied now c t n s c_small size et en in
        let first = tally_first now t n ne in
        (s', rw first at e, tallied.sized, (tallied.own_seen, tallied.own_count ∙ rw first))
    own_call (suc k) s size (et, en) small =
        let (s', e, tallied) =
          count_request-IsTallied now c now (pos (suc k)) s c_small size et en in
        let again = tally_again now (suc k) small in
        (
          s',
          e ∙ ap (λ b. done (s', b)) (rw again (ground arith)),
          tallied.sized,
          (tallied.own_seen, tallied.own_count ∙ rw again),
        )

    -- A call of another client leaves the counters of `c`.
    HasCalled-other :
        (k j seen : ℕ) (count : ℤ) {s s' : SharedState W}
        → j ≢ c
        → IsTallied now j seen count s s'
        → HasCalled c now k s
        → HasCalled c now k s'
    HasCalled-other zero j seen count ne tallied (t, et, later) =
        (t, tallied.others_seen c ne ∙ et, later)
    HasCalled-other (suc k) j seen count ne tallied (et, en) =
        (tallied.others_seen c ne ∙ et, tallied.others_count c ne ∙ en)

    -- A call of anyone: `c` has then called once more, or as often as before.
    pub any_call :
        (x : ℤ) (k : ℕ) (s : SharedState W)
        → IsSized W s
        → HasCalled c now k s
        → k < 2147483647
        → (s' : SharedState W) × (blocked : Bool) × (check_and_update_rate_limit x now s
            ≡ done (s', blocked))
          × IsSized W s'
          × HasCalled c now (if is_client c x then suc k else k) s'
          × (is_client c x ≡ true → blocked ≡ ltb 3 (suc k))
    unfolding check_and_update_rate_limit
    any_call x k s size called small =
        elim (Bool-cases (leb_ℤ x (pos 0) || leb_ℤ (pos max_clients) x)) [
          | inl out ↦
              let other : is_client c x ≡ false = is_client_out c c_pos c_small x out in
              (
                s,
                false,
                rw out,
                size,
                rw other called,
                λ own. absurd (false≢true (sym other ∙ own)),
              )
          | inr within ↦ elim (Bool-cases (is_client c x)) [
            | inl own ↦
                let (s', e, size', called') = own_call k s size called small in
                (
                  s',
                  ltb 3 (suc k),
                  rw (within, is_client_own c x own) e,
                  size',
                  rw own called',
                  λ _. refl,
                )
            | inr other ↦
                let in_range = index_within x within in
                let (t, et) =
                  get_elem?-some s.client_last_seen (pos_part x)
                    (rw size.last_seen_size in_range) in
                let (n, en) =
                  get_elem?-some s.client_req_count (pos_part x)
                    (rw size.req_count_size in_range) in
                let (s', e, tallied) =
                  count_request-IsTallied now (pos_part x) t n s in_range size et en in
                (
                  s',
                  ltb_ℤ (pos 3) (tally now t n),
                  rw within e,
                  tallied.sized,
                  rw other (
                      HasCalled-other k (pos_part x) t n (is_client_other c x within other) tallied
                        called),
                  λ own. absurd (false≢true (sym other ∙ own)),
                )
          ]
        ]
