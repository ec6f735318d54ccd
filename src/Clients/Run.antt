-- ===== src/Clients/Run.antt =====
-- A whole run of a client.
use kernel_bypass_group_proj.Base.{
  ℕ, zero, suc, ◌+◌, ◌-◌, ◌*◌, ◌^◌, ◌≤◌, ◌<◌, ◌≡◌, refl, subst, subst₂, ◌∙◌, Bytes, [], ◌∷◌, ◌++◌,
  some, arith, length, length-append, All, All-append,
}
use native.Mathlib.Nat.{suc-mul}
use kernel_bypass_group_proj.Base.Int.{ℤ, pos}
use kernel_bypass_group_proj.Mem.{Mem, slice}
use kernel_bypass_group_proj.Api.Keys.{c_str}
use kernel_bypass_group_proj.Clients.{
  Settings, Session, returned, running, send_messages, receive_replies, run_bursts, run_client,
  client_settings, client_main, reply_text, send_app_payload, filled, random_id,
}
use kernel_bypass_group_proj.Clients.Datagram.{datagram, send_payload-whole}

-- What recvfrom can give without harm: the memcached parts at least, and not a full buffer.
pub data IsReply (max_length : ℕ) : ℤ × Mem → Type 0 where
  reply : (n : ℕ) (buffer : Mem) → 10 ≤ n → n < max_length → IsReply max_length (pos n, buffer)

-- A datagram that carries one of the client's messages.
unfoldable pub Carries : (Bytes → Type 0) → Bytes → Type 0
Carries P d = (req_id : ℕ) × (message : Bytes) × P message × (d ≡ datagram req_id message)

-- Every message that is made is one of P, and fits into a datagram.
unfoldable pub Makes : (Bytes → Type 0) → Settings → Type 0
Makes P c =
    (draws : ℕ)
    → (message : Bytes) × (next : ℕ) × (c.message draws ≡ some (message, next))
      × P message
      × (length message + 10 ≤ c.max_length)

-- After so many calls of sendto and recvfrom.
pub record Progress (P : Bytes → Type 0) (sends receipts : ℕ) (s : Session) : Type 0 where
  pub sent_count : length s.sent ≡ sends
  pub printed_count : length s.printed ≡ receipts
  pub carried : All (Carries P) s.sent

reply_text-IsReply :
    (max_length : ℕ) (r : ℤ × Mem)
    → IsReply max_length r
    → (message : Bytes) × (reply_text max_length r ≡ some message)
unfolding reply_text
reply_text-IsReply max_length _ (reply n buffer l h) =
    (c_str (slice buffer 8 (n - 10)), ground arith)

module _ (P : Bytes → Type 0) (c : Settings) (rand : ℕ → ℕ) (recvfrom : ℕ → ℤ × Mem)
    (large : c.max_length < 2 ^ 16) (makes : Makes P c)
    (replies : (i : ℕ) → IsReply c.max_length (recvfrom i)) where
  sent_whole :
      (app_buf : Mem) (message : Bytes) (random : ℕ)
      → length message + 10 ≤ c.max_length
      → (m : Mem) × (send_app_payload c.max_length app_buf message random
          ≡ filled (10 + length message) m)
        × (slice m 0 (10 + length message) ≡ datagram (random_id random) message)
  unfolding send_app_payload
  sent_whole app_buf message random h =
      send_payload-whole c.max_length app_buf message (random_id random) h large

  send_messages-suc :
      {message : Bytes} {next total_len : ℕ} {m : Mem} (n : ℕ) (s : Session)
      → c.message s.draws ≡ some (message, next)
      → send_app_payload c.max_length s.full_msg message (rand next) ≡ filled total_len m
      → send_messages c rand recvfrom (suc n) s
        ≡ send_messages c rand recvfrom n
            (record s { draws = next + 1; sent = s.sent ++ slice m 0 total_len ∷ []; full_msg = m })
  unfolding send_messages
  send_messages-suc n s e e' = rw (send_messages, e, e') refl

  receive_replies-suc :
      {message : Bytes} (n : ℕ) (s : Session)
      → reply_text c.max_length (recvfrom s.received) ≡ some message
      → receive_replies c rand recvfrom (suc n) s
        ≡ receive_replies c rand recvfrom n
            (record s { received = s.received + 1; printed = s.printed ++ message ∷ [] })
  unfolding receive_replies
  receive_replies-suc n s e = rw (receive_replies, e) refl

  send_messages-Progress :
      (n a b : ℕ) (s : Session)
      → Progress P a b s
      → (t : Session) × (send_messages c rand recvfrom n s ≡ running t) × Progress P (a + n) b t
  unfolding send_messages Makes Carries
  send_messages-Progress zero a b s p = (s, refl, subst (λ k. Progress P k b s) (omega arith) p)
  send_messages-Progress (suc n) a b s p =
      let (message, next, e, pm, fits) = makes s.draws in
      let (m, e', d) = sent_whole s.full_msg message (rand next) fits in
      let next_session : Session = record s {
        draws = next + 1;
        sent = s.sent ++ slice m 0 (10 + length message) ∷ [];
        full_msg = m;
      } in
      let (t, e'', q) = send_messages-Progress n (suc a) b next_session (record {
        sent_count =
            length-append s.sent (slice m 0 (10 + length message) ∷ [])
            ∙ omega (arith, p.sent_count);
        printed_count = p.printed_count;
        carried = All-append (Carries P) s.sent _ p.carried ((_, message, pm, d), tt);
      }) in
      (t, send_messages-suc n s e e' ∙ e'', subst (λ k. Progress P k b t) (omega arith) q)

  receive_replies-Progress :
      (n a b : ℕ) (s : Session)
      → Progress P a b s
      → (t : Session) × (receive_replies c rand recvfrom n s ≡ running t) × Progress P a (b + n) t
  unfolding receive_replies
  receive_replies-Progress zero a b s p = (s, refl, subst (λ k. Progress P a k s) (omega arith) p)
  receive_replies-Progress (suc n) a b s p =
      let (message, e) = reply_text-IsReply c.max_length _ (replies s.received) in
      let next_session : Session = record s {
        received = s.received + 1;
        printed = s.printed ++ message ∷ [];
      } in
      let (t, e', q) = receive_replies-Progress n a (suc b) next_session (record {
        sent_count = p.sent_count;
        printed_count = length-append s.printed (message ∷ []) ∙ omega (arith, p.printed_count);
        carried = p.carried;
      }) in
      (t, receive_replies-suc n s e ∙ e', subst (λ k. Progress P a k t) (omega arith) q)

  run_bursts-Progress :
      (n a b : ℕ) (s : Session)
      → Progress P a b s
      → (t : Session) × (run_bursts c rand recvfrom n s ≡ returned t)
        × Progress P (a + n * c.burst_size) (b + n * (c.burst_size * 4)) t
  unfolding run_bursts
  run_bursts-Progress zero a b s p =
      (s, refl, subst₂ (λ i j. Progress P i j s) (omega arith) (omega arith) p)
  run_bursts-Progress (suc n) a b s p =
      let (t, e, q) = send_messages-Progress c.burst_size a b s p in
      let (u, e', q') = receive_replies-Progress (c.burst_size * 4) _ b t q in
      let (v, e'', q'') = run_bursts-Progress n _ _ u q' in
      (
        v,
        rw (e, e') e'',
        subst₂ (λ i j. Progress P i j v) (omega (arith, suc-mul n c.burst_size))
            (omega (arith, suc-mul n (c.burst_size * 4))) q'',
      )

  -- A run of a client returns, with as many calls as its loops say.
  pub run_client-Progress :
      (garbage : Mem)
      → (s : Session) × (run_client c rand recvfrom garbage ≡ returned s)
        × Progress P (c.burst_number * c.burst_size) (c.burst_number * (c.burst_size * 4)) s
  unfolding run_client
  run_client-Progress garbage =
      let start : Session = record {
        draws = 0;
        received = 0;
        sent = [];
        printed = [];
        full_msg = garbage;
      } in
      let (s, e, p) =
        run_bursts-Progress c.burst_number 0 0 start
          (record { sent_count = refl; printed_count = refl; carried = tt }) in
      (s, e, subst₂ (λ i j. Progress P i j s) (omega arith) (omega arith) p)

-- The client of client/client.cpp, for a message of at most 1438 bytes, whatever rand gives, and
-- where every call of recvfrom gives at least 10 bytes and fewer than its buffer has: main returns,
-- after 100000 calls of sendto, each with a memcached datagram that carries the message, and 400000
-- calls of recvfrom.
pub client_main-Progress :
    (msg : Bytes) (rand : ℕ → ℕ) (recvfrom : ℕ → ℤ × Mem) (garbage : Mem)
    → length msg + 10 ≤ 1448
    → ((i : ℕ) → IsReply 1448 (recvfrom i))
    → (s : Session) × (client_main msg rand recvfrom garbage ≡ returned s)
      × Progress (λ m. m ≡ msg) 100000 400000 s
unfolding client_main Makes
client_main-Progress msg rand recvfrom garbage fits replies =
    run_client-Progress (λ m. m ≡ msg) (client_settings msg) rand recvfrom (omega arith)
      (λ draws. (msg, draws, refl, refl, fits)) replies garbage
