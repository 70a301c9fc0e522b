-- ===== src/Client/Session/Text.antt =====
-- The texts of the server and the tests of the client.
use ride_hailing_system.Prelude.{ℕ, ◌<◌, ◌≡◌, arith, List, [], ◌∷◌, All}
use ride_hailing_system.Common.Rc4.Keystream.{IsAscii}
use ride_hailing_system.Server.Ride.{Reply, confirmed, no_drivers, result_of}
use ride_hailing_system.Server.Ride.Text.{
  reply_text, IsPrinter, reply_text-IsAscii, length-reply_text,
}
use ride_hailing_system.Client.Core.{judge}
use ride_hailing_system.Client.Core.Honest.{judge_confirmed, judge_no_drivers}
use ride_hailing_system.Client.Session.{IsText}

All-weaken : (P Q : ℕ → Type 0) → ((b : ℕ) → P b → Q b) → (xs : List ℕ) → All P xs → All Q xs
All-weaken P Q f [] h = tt
All-weaken P Q f (x ∷ xs) h = (f x h.0, All-weaken P Q f xs h.1)

module _ {W : Type 0} (decimals : ℕ → W → List ℕ) where
  verdict : (reply : Reply W) → judge (reply_text decimals reply) ≡ result_of reply
  unfolding reply_text
  verdict (confirmed id rating dist is_smart) = judge_confirmed _
  verdict no_drivers = judge_no_drivers

  -- If every double is printed in ASCII characters, the texts of the two replies are not empty, fit
  -- the buffer of 256 bytes with their NUL, are strings of bytes without a NUL inside, and the
  -- tests of the client on the text give the result that the server had.
  pub reply_text-IsText : IsPrinter decimals → IsText (reply_text decimals)
  reply_text-IsText printer = record {
    some_text = λ reply. (length-reply_text decimals reply).0;
    short = λ reply. (length-reply_text decimals reply).1;
    chars = λ reply.
        All-weaken IsAscii (λ b. 0 < b) (λ b h. h.0) (reply_text decimals reply)
          (reply_text-IsAscii decimals printer reply);
    bytes = λ reply.
        All-weaken IsAscii (λ b. b < 256) (λ b h. omega arith) (reply_text decimals reply)
          (reply_text-IsAscii decimals printer reply);
    verdict = verdict;
  }
