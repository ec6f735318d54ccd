-- ===== src/Clients/Old/Resends.antt =====
-- A whole run of client/old_client.cpp.
use kernel_bypass_group_proj.Base.{
  ℕ, zero, suc, ◌+◌, ◌*◌, ◌<◌, ◌≡◌, refl, ◌∙◌, subst, subst₂, Bytes, [], ◌∷◌, ◌++◌, some, arith,
  length, length-append, lt→ltb, All, All-append,
}
use kernel_bypass_group_proj.Base.Int.{ℤ, pos}
use kernel_bypass_group_proj.Mem.{Mem, slice}
use kernel_bypass_group_proj.Api.Keys.{c_str}
use kernel_bypass_group_proj.Clients.{Session, returned, running}
use kernel_bypass_group_proj.Clients.Old.{old_text, send_old, receive_old, run_old, old_main}

-- What recvfrom can give without harm: a datagram that leaves room for its NUL.
pub data IsText : ℤ × Mem → Type 0 where
  text : (n : ℕ) (buffer : Mem) → n < 1024 → IsText (pos n, buffer)

-- After so many calls of sendto, each with the message, and of recvfrom.
pub record Resent (msg : Bytes) (sends receipts : ℕ) (s : Session) : Type 0 where
  pub sent_count : length s.sent ≡ sends
  pub printed_count : length s.printed ≡ receipts
  pub same : All (λ m. m ≡ msg) s.sent

old_text-IsText : (r : ℤ × Mem) → IsText r → (t : Bytes) × (old_text r ≡ some t)
unfolding old_text
old_text-IsText _ (text n buffer l) = (c_str (slice buffer 0 n), rw (lt→ltb n 1024 l) refl)

module _ (msg : Bytes) (recvfrom : ℕ → ℤ × Mem) (texts : (i : ℕ) → IsText (recvfrom i)) where
  send_old-Resent :
      (n a b : ℕ) (s : Session)
      → Resent msg a b s
      → Resent msg (a + n) b (send_old msg recvfrom n s)
  unfolding send_old
  send_old-Resent zero a b s p = subst (λ k. Resent msg k b s) (omega arith) p
  send_old-Resent (suc n) a b s p =
      let t : Session = record s { sent = s.sent ++ msg ∷ [] } in
      subst (λ k. Resent msg k b (send_old msg recvfrom n t)) (omega arith)
        (send_old-Resent n (suc a) b t (record {
          sent_count = length-append s.sent (msg ∷ []) ∙ omega (arith, p.sent_count);
          printed_count = p.printed_count;
          same = All-append (λ m. m ≡ msg) s.sent (msg ∷ []) p.same (refl, tt);
        }))

  receive_old-Resent :
      (n a b : ℕ) (s : Session)
      → Resent msg a b s
      → (t : Session) × (receive_old msg recvfrom n s ≡ running t) × Resent msg a (b + n) t
  unfolding receive_old
  receive_old-Resent zero a b s p = (s, refl, subst (λ k. Resent msg a k s) (omega arith) p)
  receive_old-Resent (suc n) a b s p =
      let (m, e) = old_text-IsText _ (texts s.received) in
      let next_session : Session = record s {
        received = s.received + 1;
        printed = s.printed ++ m ∷ [];
      } in
      let (t, e', q) = receive_old-Resent n a (suc b) next_session (record {
        sent_count = p.sent_count;
        printed_count = length-append s.printed (m ∷ []) ∙ omega (arith, p.printed_count);
        same = p.same;
      }) in
      (t, step n s m e ∙ e', subst (λ k. Resent msg a k t) (omega arith) q)
    where
      step :
          (n : ℕ) (s : Session) (m : Bytes)
          → old_text (recvfrom s.received) ≡ some m
          → receive_old msg recvfrom (suc n) s
            ≡ receive_old msg recvfrom n
                (record s { received = s.received + 1; printed = s.printed ++ m ∷ [] })
      step n s m e = rw (receive_old, e) refl

  run_old-Resent :
      (n a b : ℕ) (s : Session)
      → Resent msg a b s
      → (t : Session) × (run_old msg recvfrom n s ≡ returned t)
        × Resent msg (a + n * 4) (b + n * 4) t
  unfolding run_old
  run_old-Resent zero a b s p =
      (s, refl, subst₂ (λ i j. Resent msg i j s) (omega arith) (omega arith) p)
  run_old-Resent (suc n) a b s p =
      let (t, e, q) =
        receive_old-Resent 4 (a + 4) b (send_old msg recvfrom 4 s) (send_old-Resent 4 a b s p) in
      let (u, e', q') = run_old-Resent n (a + 4) (b + 4) t q in
      (u, rw e e', subst₂ (λ i j. Resent msg i j u) (omega arith) (omega arith) q')

  pub old_main-Resent : (s : Session) × (old_main msg recvfrom ≡ returned s) × Resent msg 200 200 s
  unfolding old_main
  old_main-Resent =
      let start : Session = record {
        draws = 0;
        received = 0;
        sent = [];
        printed = [];
        full_msg = λ i. 0;
      } in
      let nothing : Resent msg 0 0 start = record {
        sent_count = refl;
        printed_count = refl;
        same = tt;
      } in
      run_old-Resent 50 0 0 start nothing
