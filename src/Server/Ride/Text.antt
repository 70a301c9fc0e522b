-- ===== src/Server/Ride/Text.antt =====
-- The text of a reply, as `snprintf` writes it into a buffer of 256 bytes. The decimals of a `double`
-- (`%.1f` and `%.4f`) are an argument.
use ride_hailing_system.Prelude.{
  ℕ, ◌<◌, ◌^◌, arith, true, false, if◌then◌else◌, Bool, List, [], ◌∷◌, ◌++◌, length, length-take,
  take, All, All-append, All-take,
}
use ride_hailing_system.Common.Dh.{print_lld}
use ride_hailing_system.Common.Dh.SessionKey.{print_lld-IsAscii}
use ride_hailing_system.Common.Rc4.Keystream.{IsAscii}
use ride_hailing_system.Common.Protocol.{to_signed}
use ride_hailing_system.Server.Ride.{Reply, confirmed, no_drivers}

-- "Ride Confirmed! Driver ID: "
abbrev pub confirmed_part : List ℕ
confirmed_part =
    b'R' ∷ b'i' ∷ b'd' ∷ b'e' ∷ b' ' ∷ b'C' ∷ b'o' ∷ b'n' ∷ b'f' ∷ b'i' ∷ b'r' ∷ b'm' ∷ b'e' ∷ b'd'
    ∷ b'!' ∷ b' ' ∷ b'D' ∷ b'r' ∷ b'i' ∷ b'v' ∷ b'e' ∷ b'r' ∷ b' ' ∷ b'I' ∷ b'D' ∷ b':' ∷ b' ' ∷ []

-- " (Rating: "
abbrev pub rating_part : List ℕ
rating_part = b' ' ∷ b'(' ∷ b'R' ∷ b'a' ∷ b't' ∷ b'i' ∷ b'n' ∷ b'g' ∷ b':' ∷ b' ' ∷ []

-- ", Dist: "
abbrev pub dist_part : List ℕ
dist_part = b',' ∷ b' ' ∷ b'D' ∷ b'i' ∷ b's' ∷ b't' ∷ b':' ∷ b' ' ∷ []

-- ") [Mode: SMART]" or ") [Mode: BASIC]"
abbrev pub mode_part : Bool → List ℕ
mode_part is_smart =
    b')'
    ∷ b' '
    ∷ b'['
    ∷ b'M'
    ∷ b'o'
    ∷ b'd'
    ∷ b'e'
    ∷ b':'
    ∷ b' '
    ∷ (if is_smart
        then b'S' ∷ b'M' ∷ b'A' ∷ b'R' ∷ b'T' ∷ b']' ∷ []
        else b'B' ∷ b'A' ∷ b'S' ∷ b'I' ∷ b'C' ∷ b']' ∷ [])

-- "Error: No drivers available."
abbrev pub no_drivers_text : List ℕ
no_drivers_text =
    b'E' ∷ b'r' ∷ b'r' ∷ b'o' ∷ b'r' ∷ b':' ∷ b' ' ∷ b'N' ∷ b'o' ∷ b' ' ∷ b'd' ∷ b'r' ∷ b'i' ∷ b'v'
    ∷ b'e' ∷ b'r' ∷ b's' ∷ b' ' ∷ b'a' ∷ b'v' ∷ b'a' ∷ b'i' ∷ b'l' ∷ b'a' ∷ b'b' ∷ b'l' ∷ b'e'
    ∷ b'.' ∷ []

module _ {W : Type 0} (decimals : ℕ → W → List ℕ) where
  abbrev pub dist_text : W → Bool → List ℕ
  dist_text dist is_smart = dist_part ++ (decimals 4 dist ++ mode_part is_smart)

  abbrev pub rating_text : W → W → Bool → List ℕ
  rating_text rating dist is_smart = rating_part ++ (decimals 1 rating ++ dist_text dist is_smart)

  abbrev pub confirmed_text : ℕ → W → W → Bool → List ℕ
  confirmed_text driver_id rating dist is_smart =
      confirmed_part
      ++ (print_lld (to_signed (2 ^ 31) driver_id) ++ rating_text rating dist is_smart)

  unfoldable pub reply_text : Reply W → List ℕ
  reply_text (confirmed driver_id rating dist is_smart) =
      take 255 (confirmed_text driver_id rating dist is_smart)
  reply_text no_drivers = no_drivers_text

  -- What `snprintf` does: a `double` is printed in characters of ASCII.
  abbrev pub IsPrinter : Type 0
  IsPrinter = (digits : ℕ) (x : W) → All IsAscii (decimals digits x)

  mode_part-IsAscii : (is_smart : Bool) → All IsAscii (mode_part is_smart)
  mode_part-IsAscii true = omega arith
  mode_part-IsAscii false = omega arith

  rating-IsAscii :
      IsPrinter
      → (rating dist : W) (is_smart : Bool) → All IsAscii (rating_text rating dist is_smart)
  rating-IsAscii printer rating dist is_smart =
      All-append IsAscii rating_part (decimals 1 rating ++ dist_text dist is_smart) (omega arith) (
        All-append IsAscii (decimals 1 rating) (dist_text dist is_smart) (printer 1 rating) (
          All-append IsAscii dist_part (decimals 4 dist ++ mode_part is_smart) (omega arith) (
            All-append IsAscii (decimals 4 dist) (mode_part is_smart) (printer 4 dist)
              (mode_part-IsAscii is_smart))))

  pub reply_text-IsAscii : IsPrinter → (reply : Reply W) → All IsAscii (reply_text reply)
  unfolding reply_text
  reply_text-IsAscii printer no_drivers = omega arith
  reply_text-IsAscii printer (confirmed id rating dist is_smart) =
      All-take IsAscii 255 (confirmed_text id rating dist is_smart) (
        All-append IsAscii confirmed_part
          (print_lld (to_signed (2 ^ 31) id) ++ rating_text rating dist is_smart) (omega arith)
          (All-append IsAscii (print_lld (to_signed (2 ^ 31) id)) (rating_text rating dist is_smart)
            (print_lld-IsAscii (to_signed (2 ^ 31) id))
            (rating-IsAscii printer rating dist is_smart)))

  pub length-reply_text :
      (reply : Reply W) → (0 < length (reply_text reply)) × (length (reply_text reply) < 256)
  unfolding reply_text
  length-reply_text no_drivers = omega arith
  length-reply_text (confirmed id rating dist is_smart) =
      (omega arith, omega (arith, length-take 255 (confirmed_text id rating dist is_smart)))
