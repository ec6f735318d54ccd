-- ===== src/Clients/Old.antt =====
-- client/old_client.cpp, from the first burst on: it sends its message as it stands and prints what
-- comes back. sendto and recvfrom are as in Clients; `full_msg` of a Session is not used.
pub mod Resends
use kernel_bypass_group_proj.Base.{
  ℕ, zero, suc, ◌+◌, Bytes, List, [], ◌∷◌, ◌++◌, Option, none, some, ltb, if◌then◌else◌,
}
use kernel_bypass_group_proj.Base.Int.{ℤ, pos, negsuc}
use kernel_bypass_group_proj.Mem.{Mem, slice}
use kernel_bypass_group_proj.Api.Keys.{c_str}
use kernel_bypass_group_proj.Clients.{Session, Outcome, undefined, returned, running, and_then}

-- The text that is printed; `none` is `buffer[n]` outside the array of MAXLINE bytes.
unfoldable pub old_text : ℤ × Mem → Option Bytes
unfolding c_str
old_text (pos n, buffer) = if ltb n 1024 then some (c_str (slice buffer 0 n)) else none
old_text (negsuc n, buffer) = none

module _ (msg : Bytes) (recvfrom : ℕ → ℤ × Mem) where
  -- `while (msg_ctr<BURST_SIZE)`
  pub send_old : ℕ → Session → Session
  send_old zero s = s
  send_old (suc n) s = send_old n (record s { sent = s.sent ++ msg ∷ [] })

  -- `while(msg_ctr > 0)`
  pub receive_old : ℕ → Session → Outcome
  unfolding old_text
  receive_old zero s = running s
  receive_old (suc n) s = elim (old_text (recvfrom s.received)) [
    | none ↦ undefined
    | some text ↦
        receive_old n (record s { received = s.received + 1; printed = s.printed ++ text ∷ [] })
  ]

  -- `while (burst_ctr<BURST_NUMBER)`, with bursts of BURST_SIZE
  pub run_old : ℕ → Session → Outcome
  unfolding send_old receive_old
  run_old zero s = returned s
  run_old (suc n) s = and_then (receive_old 4 (send_old 4 s)) (λ t. run_old n t)

-- 50 bursts
unfoldable pub old_main : Bytes → (ℕ → ℤ × Mem) → Outcome
unfolding run_old
old_main msg recvfrom =
    run_old msg recvfrom 50
      (record { draws = 0; received = 0; sent = []; printed = []; full_msg = λ i. 0 })
