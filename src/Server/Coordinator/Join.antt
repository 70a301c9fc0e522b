-- ===== src/Server/Coordinator/Join.antt =====
-- `process_driver_join` of src/server/coordinator.c on a well-formed state.
use ride_hailing_system.Prelude.{
  ℕ, ◌+◌, ◌<◌, ◌≤◌, ◌≡◌, refl, ◌∙◌, arith, true, Bool-cases, ◌⊎◌, some, get_elem?, inl, inr, List,
  length, length-set, get_elem?-some, set, done, pos, ltb_ℤ, ◌+ℤ◌,
}
use ride_hailing_system.Common.Protocol.{load}
use ride_hailing_system.Common.Protocol.Bytes.{load_done}
use ride_hailing_system.Server.State.{Driver, SharedState, IsSized, max_drivers}
use ride_hailing_system.Server.Coordinator.{write_driver, join, process_driver_join}

pub add_one : (n : ℕ) → pos n +ℤ pos 1 ≡ pos (n + 1)
unfolding ◌+ℤ◌
add_one n = ground arith

module _ {W : Type 0} where
  -- The state `s` with a driver at place `n`, where `v` was: free, and with a full tank.
  abbrev pub with_driver : ℕ → ℕ → Driver W → SharedState W → SharedState W
  with_driver id n v s = record s {
    drivers = set s.drivers n (record v { driver_id = id; is_available = true; fuel = pos 10 });
    driver_count = pos n +ℤ pos 1;
  }

  -- There was room for a driver, who has joined; or the array was full, and nothing has changed.
  abbrev pub IsJoined : ℕ → ℕ → SharedState W → SharedState W → Type 0
  IsJoined id n s s' =
      ((n < max_drivers)
        × (v : Driver W) × (get_elem? s.drivers n ≡ some v)
        × (s' ≡ with_driver id n v s))
      ⊎ ((max_drivers ≤ n) × (s' ≡ s))

  with_driver-IsSized :
      (id n : ℕ) (v : Driver W) (s : SharedState W)
      → n < max_drivers
      → IsSized W s
      → IsSized W (with_driver id n v s)
  with_driver-IsSized id n v s less sized = record {
    drivers_size = length-set s.drivers n _ ∙ sized.drivers_size;
    last_seen_size = sized.last_seen_size;
    req_count_size = sized.req_count_size;
    count_fits = rw (add_one n) omega arith;
  }

  -- On a state of the right sizes with a count of drivers that is not negative, and a body of at
  -- least four bytes: a driver with the number in these bytes joins, free and with 10 units of
  -- fuel, at the next place of the array, whose driver is otherwise kept, and the count grows by
  -- one; or the array is full and nothing changes. The sizes are kept.
  pub process_driver_join-IsJoined :
      (body : List ℕ) (s : SharedState W) (n : ℕ)
      → 4 ≤ length body
      → IsSized W s
      → s.driver_count ≡ pos n
      → (id : ℕ) × (s' : SharedState W) × (load 4 0 body ≡ done id)
        × (process_driver_join body s ≡ done s')
        × IsJoined id n s s'
        × IsSized W s'
        × (m : ℕ) × (s'.driver_count ≡ pos m)
  unfolding process_driver_join join write_driver
  process_driver_join-IsJoined body s n long sized count =
      let (id, e) = load_done 4 0 body (omega arith) in
      elim (Bool-cases (ltb_ℤ (pos n) (pos max_drivers))) [
        | inl room ↦
            let less : n < max_drivers = ground arith in
            let (v, ev) = get_elem?-some s.drivers n (omega (arith, sized)) in
            (
              id,
              with_driver id n v s,
              e,
              rw (e, count, room, ev),
              inl (less, v, ev, refl),
              with_driver-IsSized id n v s less sized,
              n + 1,
              add_one n,
            )
        | inr full ↦ (id, s, e, rw (e, count, full), inr (ground arith, refl), sized, n, count)
      ]
