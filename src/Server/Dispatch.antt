-- ===== src/Server/Dispatch.antt =====
-- src/server/dispatch_algorithms.c: the search for a driver. The index -1 is `none`.
pub mod Nearest
pub mod Smart
use ride_hailing_system.Prelude.{
  ℕ, zero, suc, ◌+◌, Bool, true, false, not, ◌&&◌, if◌then◌else◌, Option, none, some, List, Exec,
  done, ◌>>=◌, read, ℤ, pos, ltb_ℤ, rounds,
}
use ride_hailing_system.Server.Double.{Double}
use ride_hailing_system.Server.State.{Driver, SharedState}

abbrev pub is_free : {W : Type 0} → Driver W → Bool
is_free v = v.is_available && (not v.is_refueling && ltb_ℤ (pos 0) v.fuel)

module _ {W : Type 0} ⦃d : Double W⦄ where
  open d use {lit, sub, add, sqrt, pow, lt, le}

  pub calculate_distance : W → W → W → W → W
  calculate_distance lat1 lon1 lat2 lon2 =
      sqrt (add (pow (sub lat1 lat2) (lit 2 0)) (pow (sub lon1 lon2) (lit 2 0)))

  -- The distance from the pick-up point, 25.0330 and 121.5654.
  abbrev pub pickup_distance : Driver W → W
  pickup_distance v = calculate_distance (lit 250330 4) (lit 1215654 4) v.lat v.lon

  -- `1000000.0`, the distance that every candidate has to beat.
  abbrev pub far : W
  far = lit 10000000 1

  -- `d->rating >= 4.8`.
  abbrev pub is_top_rated : Driver W → Bool
  is_top_rated v = le (lit 48 1) v.rating

  -- The `for` loop of both searches over the drivers that `keep` lets through.
  pub scan : (Driver W → Bool) → List (Driver W) → ℕ → ℕ → W → Option ℕ → Exec (Option ℕ)
  scan keep drivers zero i min_dist best = done best
  scan keep drivers (suc left) i min_dist best = do
    v ← read drivers i
    let nearer = keep v && lt (pickup_distance v) min_dist
    scan keep drivers left (i + 1) (if nearer then pickup_distance v else min_dist)
        (if nearer then some i else best)

  pub find_driver_basic : SharedState W → Exec (Option ℕ)
  find_driver_basic state = scan is_free state.drivers (rounds state.driver_count) 0 far none

  -- `if (best_index != -1) return best_index;`, else the fallback.
  pub or_basic : SharedState W → Option ℕ → Exec (Option ℕ)
  or_basic state (some i) = done (some i)
  or_basic state none = find_driver_basic state

  pub find_driver_smart : SharedState W → Bool → Exec (Option ℕ)
  find_driver_smart state false = find_driver_basic state
  find_driver_smart state true = do
    best ←
        scan (λ v. is_free v && is_top_rated v) state.drivers (rounds state.driver_count) 0 far none
    or_basic state best
