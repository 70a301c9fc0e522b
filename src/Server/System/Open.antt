-- ===== src/Server/System/Open.antt =====
-- The parts of a connection's program (src/server/dispatcher.c) on a session that is ready.
use mathlib.Core.Path.{subst}
use ride_hailing_system.Prelude.{
  ℕ, ◌≡◌, refl, ◌∙◌, ap, arith, true, List, All, Exec, done, crash, ◌>>=◌,
}
use ride_hailing_system.Common.Rc4.Keystream.{IsByte}
use ride_hailing_system.Common.Rc4.RoundTrip.{rc4_crypt-IsCipher}
use ride_hailing_system.Common.Protocol.Bytes.{load_done}
use ride_hailing_system.Server.Double.{Double}
use ride_hailing_system.Server.State.{SharedState}
use ride_hailing_system.Server.Ride.{Reply}
use ride_hailing_system.Server.Dispatcher.{Arrival, Connection, send_response_packet}
use ride_hailing_system.Server.Dispatcher.Ready.{
  HasKey, IsReady, shake_hands-IsReady, decrypt-IsReady,
}
use ride_hailing_system.Server.System.{
  ended, Session, alone, session_handshake, session_decrypt, respond, request_program, join_program,
  run_alone,
}
use ride_hailing_system.Server.System.Steps.{
  connect, run_session, alone-session_handshake, alone-session_decrypt,
}
use ride_hailing_system.Server.System.Budget.{EndsIn}

module _ {W : Type 0} ⦃d : Double W⦄ (text : Reply W → List ℕ)
    (bytes : (reply : Reply W) → All IsByte (text reply)) (memory : SharedState W) where
  -- The session is ready over the memory.
  abbrev pub IsOpen : Session → Type 0
  IsOpen l = IsReady (connect memory l)

  pub request_program-EndsIn :
      (a : Arrival) (l : Session)
      → l.is_key_established ≡ true
      → IsOpen l
      → EndsIn 2 (request_program text a l)
  unfolding request_program respond send_response_packet
  request_program-EndsIn a l established ready =
      let (id, e) = load_done 4 0 l.body (omega (arith, ready.body_size)) in
      let key = subst (λ b. HasKey b l.session_key) established ready.key in
      rw e (
        refl,
        λ reply.
            let (encrypted, p) =
              rc4_crypt-IsCipher (text reply) l.session_key (bytes reply) key.0 key.1 in
            rw p.forth tt,
      )

  pub join_program-EndsIn : (l : Session) → IsOpen l → EndsIn 2 (join_program text l)
  unfolding join_program
  join_program-EndsIn l ready = (omega (arith, ready.body_size), tt)

  -- A step of a session is one of its connection, on which it ends well.
  open_step :
      (m : Exec Session) (step : Exec (Connection W)) (c : Connection W)
      → run_session (alone m ended) memory ≡ (step >>= done)
      → step ≡ done c
      → IsReady c
      → (l : Session) × (m ≡ done l) × (connect memory l ≡ c)
  unfolding run_alone
  open_step (done l) step c same e ready =
      let h : done (connect memory l) ≡ done c = same ∙ ap (λ m. m >>= done) e in (l, refl, cc)
  open_step crash step c same e ready = let h : crash ≡ done c = same ∙ ap (λ m. m >>= done) e in cc

  pub handshake-IsOpen :
      (a : Arrival) (l : Session)
      → IsOpen l
      → (l' : Session) × (session_handshake a l ≡ done l') × IsOpen l'
  unfolding run_alone
  handshake-IsOpen a l ready =
      let (c, e, _, ready') = shake_hands-IsReady text a (connect memory l) ready in
      let (l', e', same) =
        open_step (session_handshake a l) _ c
          (alone-session_handshake text memory ended done (λ _. refl) a l) e ready' in
      (l', e', rw same ready')

  pub decrypt-IsOpen :
      (n : ℕ) (l : Session)
      → l.is_key_established ≡ true
      → IsOpen l
      → (l' : Session) × (session_decrypt n l ≡ done l')
        × (l'.is_key_established ≡ true)
        × IsOpen l'
  unfolding run_alone
  decrypt-IsOpen n l established ready =
      let (c, e, _, still, ready') = decrypt-IsReady text n (connect memory l) established ready in
      let (l', e', same) =
        open_step (session_decrypt n l) _ c
          (alone-session_decrypt text memory ended done (λ _. refl) n l) e ready' in
      (l', e', ap (λ c'. c'.is_key_established) same ∙ still, rw same ready')
