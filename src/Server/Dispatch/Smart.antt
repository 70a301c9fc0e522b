-- ===== src/Server/Dispatch/Smart.antt =====
-- The search of `find_driver_smart`: the best-rated drivers first, for a VIP.
use ride_hailing_system.Prelude.{
  ℕ, ◌≡◌, refl, Bool, true, false, ◌&&◌, ◌⊎◌, inl, inr, Option, none, some, done, arith, pos_part,
}
use ride_hailing_system.Server.Double.{Double, IsOrdered}
use ride_hailing_system.Server.State.{Driver, SharedState, IsSized}
use ride_hailing_system.Server.Dispatch.{far, is_free, is_top_rated, or_basic, find_driver_smart}
use ride_hailing_system.Server.Dispatch.Nearest.{
  IsNearest, scan-IsNearest, find_driver_basic-IsNearest,
}

module _ {W : Type 0} ⦃d : Double W⦄ where
  abbrev pub is_top_choice : Driver W → Bool
  is_top_choice v = is_free v && is_top_rated v

  -- For a VIP: the nearest free driver with a top rating; where none is in range, the nearest
  -- free driver.
  abbrev pub IsVipChoice : SharedState W → Option ℕ → Type 0
  IsVipChoice s found =
      ((k : ℕ) × (found ≡ some k)
        × IsNearest is_top_choice s.drivers (pos_part s.driver_count) (some k))
      ⊎ (IsNearest is_top_choice s.drivers (pos_part s.driver_count) none
          × IsNearest is_free s.drivers (pos_part s.driver_count) found)

  abbrev pub IsSmartChoice : SharedState W → Bool → Option ℕ → Type 0
  IsSmartChoice s true found = IsVipChoice s found
  IsSmartChoice s false found = IsNearest is_free s.drivers (pos_part s.driver_count) found

module _ {W : Type 0} ⦃d : Double W⦄ (o : IsOrdered W) (s : SharedState W)
    (sized : IsSized W s) where
  or_basic-IsVipChoice :
      (best : Option ℕ)
      → IsNearest is_top_choice s.drivers (pos_part s.driver_count) best
      → (found : Option ℕ) × (or_basic s best ≡ done found) × IsVipChoice s found
  unfolding or_basic
  or_basic-IsVipChoice (some k) near = (some k, refl, inl (k, refl, near))
  or_basic-IsVipChoice none none_top =
      let (found, e, near) = find_driver_basic-IsNearest o s sized in
      (found, e, inr (none_top, near))

  -- On a state of the right sizes and with an ordered `double`, `find_driver_smart` ends inside the
  -- array. For a VIP it returns the nearest free driver with a rating of 4.8 or more, and where
  -- there is none in range what the basic search returns; for any other client it is the basic
  -- search.
  pub find_driver_smart-IsSmartChoice :
      (is_vip : Bool)
      → (found : Option ℕ) × (find_driver_smart s is_vip ≡ done found)
        × IsSmartChoice s is_vip found
  unfolding find_driver_smart
  find_driver_smart-IsSmartChoice false = find_driver_basic-IsNearest o s sized
  find_driver_smart-IsSmartChoice true =
      let (best, e, near) =
        scan-IsNearest is_top_choice s.drivers o (pos_part s.driver_count) 0
          (pos_part s.driver_count) far none (omega arith) (omega (arith, sized)) refl
          (λ j v h c. absurd (omega arith)) in
      rw e (or_basic-IsVipChoice best near)
