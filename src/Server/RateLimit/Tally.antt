-- ===== src/Server/RateLimit/Tally.antt =====
-- One call of the limiter.
use ride_hailing_system.Prelude.{
  ℕ, ◌<◌, ◌≡◌, ◌≢◌, refl, ap, ◌∙◌, arith, ◌==◌, Bool-cases, inl, inr, some, get_elem?, set,
  length-set, get_elem?-set_self, get_elem?-set_ne, done, ℤ, pos, negsuc, pos_part, leb_ℤ, ◌||◌,
  false, get_elem?-some, Bool, ltb_ℤ,
}
use ride_hailing_system.Server.State.{SharedState, IsSized, max_clients}
use ride_hailing_system.Server.RateLimit.{tally, count_request, check_and_update_rate_limit}

-- An identifier that passes the guard is an index of the arrays.
pub index_within :
    (x : ℤ) → (leb_ℤ x (pos 0) || leb_ℤ (pos max_clients) x) ≡ false → pos_part x < max_clients
index_within (pos n) h = ground arith
index_within (negsuc n) h = ground arith

module _ {W : Type 0} where
  -- The counters of client `c` after a call at `now`, when they were `seen` and `count`; nothing
  -- else of the state changes but those two entries.
  pub record IsTallied (now c seen : ℕ) (count : ℤ) (s s' : SharedState W) : Type 0 where
    pub own_seen : get_elem? s'.client_last_seen c ≡ some now
    pub own_count : get_elem? s'.client_req_count c ≡ some (tally now seen count)
    pub others_seen :
        (j : ℕ) → c ≢ j → get_elem? s'.client_last_seen j ≡ get_elem? s.client_last_seen j
    pub others_count :
        (j : ℕ) → c ≢ j → get_elem? s'.client_req_count j ≡ get_elem? s.client_req_count j
    pub rest : s' ≡ record s {
      client_last_seen = s'.client_last_seen;
      client_req_count = s'.client_req_count;
    }
    pub sized : IsSized W s'

  module _ (now c seen : ℕ) (count : ℤ) (s : SharedState W) (in_range : c < max_clients)
      (size : IsSized W s) (es : get_elem? s.client_last_seen c ≡ some seen)
      (ec : get_elem? s.client_req_count c ≡ some count) where
    -- A call of the limiter for a client number inside the arrays, on a state of the right sizes:
    -- it blocks if and only if the new count is above 3; the client's second is now `now` and its
    -- count is the new one; no other client's entries, and nothing else in the state, changes.
    pub count_request-IsTallied :
        (s' : SharedState W) × (count_request c now s
          ≡ done (s', ltb_ℤ (pos 3) (tally now seen count)))
        × IsTallied now c seen count s s'
    unfolding count_request
    count_request-IsTallied = elim (Bool-cases (seen == now)) [
      | inl same ↦ (
        record s { client_req_count = set s.client_req_count c (tally now seen count) },
        rw (es, ec, same),
        record {
          own_seen = es ∙ ground arith;
          own_count =
              get_elem?-set_self s.client_req_count c (tally now seen count) (omega (arith, size));
          others_seen = λ j ne. refl;
          others_count = λ j ne. get_elem?-set_ne s.client_req_count c j _ ne;
          rest = refl;
          sized = record {
            drivers_size = size.drivers_size;
            last_seen_size = size.last_seen_size;
            req_count_size = length-set s.client_req_count c _ ∙ size.req_count_size;
            count_fits = size.count_fits;
          };
        },
      )
      | inr later ↦ (
        record s {
          client_last_seen = set s.client_last_seen c now;
          client_req_count = set s.client_req_count c (tally now seen count);
        },
        rw (es, ec, later),
        record {
          own_seen = get_elem?-set_self s.client_last_seen c now (omega (arith, size));
          own_count =
              get_elem?-set_self s.client_req_count c (tally now seen count) (omega (arith, size));
          others_seen = λ j ne. get_elem?-set_ne s.client_last_seen c j _ ne;
          others_count = λ j ne. get_elem?-set_ne s.client_req_count c j _ ne;
          rest = refl;
          sized = record {
            drivers_size = size.drivers_size;
            last_seen_size = length-set s.client_last_seen c _ ∙ size.last_seen_size;
            req_count_size = length-set s.client_req_count c _ ∙ size.req_count_size;
            count_fits = size.count_fits;
          };
        },
      )
    ]

  -- A call of the limiter ends, and keeps the sizes, the drivers and their count.
  pub check_and_update_rate_limit-IsSized :
      (x : ℤ) (now : ℕ) (s : SharedState W)
      → IsSized W s
      → (s' : SharedState W) × (blocked : Bool) × (check_and_update_rate_limit x now s
          ≡ done (s', blocked))
        × IsSized W s'
        × (s'.driver_count ≡ s.driver_count)
        × (s'.drivers ≡ s.drivers)
  unfolding check_and_update_rate_limit
  check_and_update_rate_limit-IsSized x now s size =
      elim (Bool-cases (leb_ℤ x (pos 0) || leb_ℤ (pos max_clients) x)) [
        | inl out ↦ (s, false, rw out, size, refl, refl)
        | inr within ↦
            let i = pos_part x in
            let less : i < max_clients = index_within x within in
            let (seen, es) = get_elem?-some s.client_last_seen i (omega (arith, size)) in
            let (count, ec) = get_elem?-some s.client_req_count i (omega (arith, size)) in
            let (s', e, tallied) = count_request-IsTallied now i seen count s less size es ec in
            (
              s',
              ltb_ℤ (pos 3) (tally now seen count),
              rw (within, e),
              tallied.sized,
              ap (λ (state : SharedState W). state.driver_count) tallied.rest,
              ap (λ (state : SharedState W). state.drivers) tallied.rest,
            )
      ]
