-- ===== src/Client/Single/Shown.antt =====
-- What src/client/single_client.c shows of an exchange with the dispatcher.
use ride_hailing_system.Prelude.{
  ℕ, ◌≤◌, ◌<◌, ◌≡◌, refl, arith, Bool, false, ltb, ◌==◌, some, List, [], ◌∷◌, ◌++◌, All, done, ℤ,
  pos, leb_ℤ,
}
use ride_hailing_system.Common.Socket.{ClientAnswers, connect_to_server}
use ride_hailing_system.Common.Socket.Descriptors.{close_first}
use ride_hailing_system.Common.Protocol.{Packet}
use ride_hailing_system.Server.Double.{Double}
use ride_hailing_system.Server.State.{SharedState}
use ride_hailing_system.Server.Ride.{Reply, confirmed, no_drivers, result_of}
use ride_hailing_system.Client.Session.{IsText, Chances, Session, link_of}
use ride_hailing_system.Client.Single.{
  Display, show_result, success, failed, read_string, single_main,
}

read_string-append :
    (text rest : List ℕ) → All (λ b. 0 < b) text → read_string (text ++ (0 ∷ rest)) ≡ done text
unfolding read_string
read_string-append [] rest all = refl
read_string-append (b ∷ text) rest all =
    let visible : (b == 0) ≡ false = ground (arith, all.0) in
    rw (visible, read_string-append text rest all.1) refl

module _ {W : Type 0} where
  -- A confirmed ride is a success, with the text of the reply; the other reply is a failure.
  abbrev pub display_for : (Reply W → List ℕ) → Bool → Reply W → Display
  display_for text vip (confirmed id rating distance is_smart) =
      success vip (text (confirmed id rating distance is_smart))
  display_for text vip no_drivers = failed vip (text no_drivers)

module _ {W : Type 0} ⦃d : Double W⦄ (text : Reply W → List ℕ) (is_text : IsText text) where
  shows :
      (vip : Bool) (fd : ℕ) (fds : List ℕ) (reply : Reply W) (rest : List ℕ) (sent : List Packet)
      → show_result vip fd
          (fd ∷ fds)
          (record { result = result_of reply; msg_buffer = text reply ++ (0 ∷ rest); sent = sent })
        ≡ done (record { display = display_for text vip reply; exit_code = pos 0; fds = fds })
  shows vip fd fds (confirmed id rating distance is_smart) rest sent =
      let reply = confirmed id rating distance is_smart in
      rw (read_string-append (text reply) rest (is_text.chars reply), close_first fd fds) refl
  shows vip fd fds no_drivers rest sent =
      rw (read_string-append (text no_drivers) rest (is_text.chars no_drivers), close_first fd fds)
        refl

  -- With at least three arguments and a connection that the system gives: if the client and the
  -- dispatcher have an exchange in which the request is served, the program prints the text of the
  -- server's reply, as a success if the ride is confirmed and as a failure if not, exits with 0,
  -- and leaves the open descriptors as they were.
  pub single_main-Session :
      (argc : ℕ) (argv : ℕ → ℤ) (system : ClientAnswers) (lat lon : List ℕ) (q : Chances)
      (fds : List ℕ) (fd : ℕ) (s s1 : SharedState W)
      → 4 ≤ argc
      → connect_to_server system (argv 2) fds ≡ (some fd, fd ∷ fds)
      → (x : Session text (argv 3) lat lon q s s1)
      → single_main argc argv system lat lon q.client_rand q.resp_body
          (link_of x.ack x.response)
          q.msg_buffer
          fds
        ≡ done (record {
          display = display_for text (leb_ℤ (argv 3) (pos 10)) x.r.1;
          exit_code = pos 0;
          fds = fds;
        })
  unfolding single_main
  single_main-Session argc argv system lat lon q fds fd s s1 enough connected x =
      let given : ltb argc 4 ≡ false = ground arith in
      rw (given, connected, x.client_run)
        (shows (leb_ℤ (argv 3) (pos 10)) fd fds x.r.1 x.rest (x.hello ∷ (x.request ∷ [])))
