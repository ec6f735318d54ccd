-- ===== src/Clients.antt =====
-- client/client.cpp: the client that sends one request over and over. rand_client/client.cpp has the
-- same code with other settings and random keys, so the settings are arguments here and
-- Clients/Random has that client. What rand and recvfrom give, the n-th time, are arguments too.
pub mod Datagram
pub mod Run
pub mod Receive
pub mod Random
pub mod Old
pub mod Program
use kernel_bypass_group_proj.Base.{
  ℕ, zero, suc, ◌+◌, ◌-◌, ◌*◌, ◌%◌, ◌^◌, Bytes, List, [], ◌∷◌, ◌++◌, Option, none, some, ◌||◌, ltb,
  if◌then◌else◌, length,
}
use kernel_bypass_group_proj.Base.Int.{ℤ, pos, negsuc}
use kernel_bypass_group_proj.Config.{
  memcached_req_id_size, memcached_header, memcached_header_size, memcached_tail,
  memcached_tail_size,
}
use kernel_bypass_group_proj.Mem.{Mem, write16, memcpy, slice}
use kernel_bypass_group_proj.Api.Keys.{c_str}
use kernel_bypass_group_proj.Api.Payload.{image}

-- What init_send_app_payload comes to: NULL, writes past `full_msg`, or total_len and the bytes.
pub data Sending : Type 0 where
  too_long : Sending
  overrun : Sending
  filled : ℕ → Mem → Sending

-- `htons(req_id + rand() % 65535)`
abbrev pub random_id : ℕ → ℕ
random_id random = (24 + random % 65535) % 2 ^ 16

-- the four copies
unfoldable pub fill_payload : Mem → Bytes → ℕ → Mem
fill_payload app_buf message req_id =
    let m = write16 app_buf 0 req_id in
    let m = memcpy m memcached_req_id_size (image memcached_header) memcached_header_size in
    let payload = memcached_req_id_size + memcached_header_size in
    let m = memcpy m payload (image message) (length message) in
    memcpy m (payload + length message) (image memcached_tail) memcached_tail_size

-- `app_buf` is an array of `max_length` bytes. The guard keeps msg_len and total_len within their
-- 16 bits for the values of MAX_LENGTH.
unfoldable pub send_payload : ℕ → Mem → Bytes → ℕ → Sending
unfolding fill_payload
send_payload max_length app_buf message req_id =
    let total_len =
      memcached_req_id_size + memcached_header_size + length message + memcached_tail_size in
    if ltb (max_length - memcached_header_size - memcached_tail_size) (length message)
    then too_long
    else if ltb max_length total_len
    then overrun
    else filled (total_len % 2 ^ 16) (fill_payload app_buf message req_id)

-- with `random`, what rand gives
unfoldable pub send_app_payload : ℕ → Mem → Bytes → ℕ → Sending
unfolding send_payload
send_app_payload max_length app_buf message random =
    send_payload max_length app_buf message (random_id random)

-- The text of a reply that is printed, from what recvfrom returned and wrote into `buffer`; `none`
-- is an access outside an array: `buffer[n]` for -1 and for a datagram that fills the buffer, and a
-- negative length that memcpy takes for a huge one.
unfoldable pub reply_text : ℕ → ℤ × Mem → Option Bytes
unfolding c_str
reply_text max_length (pos n, buffer) =
    let overhead = memcached_req_id_size + memcached_header_size + memcached_tail_size in
    if ltb n overhead || ltb (max_length - 1) n
    then none
    else some (c_str (slice buffer (memcached_req_id_size + memcached_header_size) (n - overhead)))
reply_text max_length (negsuc n, buffer) = none

-- How far a client has come: the numbers of calls of rand and of recvfrom, and what it has sent and
-- printed.
pub record Session : Type 0 where
  pub draws : ℕ
  pub received : ℕ
  pub sent : List Bytes
  pub printed : List Bytes
  pub full_msg : Mem

-- Undefined behaviour, the end of main, or the next round.
pub data Outcome : Type 0 where
  undefined : Outcome
  returned : Session → Outcome
  running : Session → Outcome

abbrev pub and_then : Outcome → (Session → Outcome) → Outcome
and_then undefined f = undefined
and_then (returned s) f = returned s
and_then (running s) f = f s

-- The settings of a client: MAX_LENGTH, BURST_SIZE, BURST_NUMBER, and the message that is made when
-- rand has been called so often, with the number of calls after that.
pub record Settings : Type 0 where
  pub max_length : ℕ
  pub burst_size : ℕ
  pub burst_number : ℕ
  pub message : ℕ → Option (Bytes × ℕ)

module _ (c : Settings) (rand : ℕ → ℕ) (recvfrom : ℕ → ℤ × Mem) where
  -- `while (msg_ctr<BURST_SIZE)`
  pub send_messages : ℕ → Session → Outcome
  unfolding send_app_payload
  send_messages zero s = running s
  send_messages (suc n) s = elim (c.message s.draws) [
    | none ↦ undefined
    | some (msg, draws) ↦ elim (send_app_payload c.max_length s.full_msg msg (rand draws)) [
      | too_long ↦ returned s
      | overrun ↦ undefined
      | filled total_len m ↦
          send_messages n (record s {
            draws = draws + 1;
            sent = s.sent ++ slice m 0 total_len ∷ [];
            full_msg = m;
          })
    ]
  ]

  -- `while(msg_ctr > 0)`
  pub receive_replies : ℕ → Session → Outcome
  unfolding reply_text
  receive_replies zero s = running s
  receive_replies (suc n) s = elim (reply_text c.max_length (recvfrom s.received)) [
    | none ↦ undefined
    | some message ↦
        receive_replies n
          (record s { received = s.received + 1; printed = s.printed ++ message ∷ [] })
  ]

  -- `while (burst_ctr<BURST_NUMBER)`
  pub run_bursts : ℕ → Session → Outcome
  unfolding send_messages receive_replies
  run_bursts zero s = returned s
  run_bursts (suc n) s =
      and_then (and_then (send_messages c.burst_size s) (receive_replies (c.burst_size * 4)))
        (λ t. run_bursts n t)

-- `garbage` is what `full_msg` holds at first.
unfoldable pub run_client : Settings → (ℕ → ℕ) → (ℕ → ℤ × Mem) → Mem → Outcome
unfolding run_bursts
run_client c rand recvfrom garbage =
    run_bursts c rand recvfrom c.burst_number
      (record { draws = 0; received = 0; sent = []; printed = []; full_msg = garbage })

-- the client of client/client.cpp, with the message of its command line
abbrev pub client_settings : Bytes → Settings
client_settings msg = record {
  max_length = 1448;
  burst_size = 2;
  burst_number = 50000;
  message = λ draws. some (msg, draws);
}

-- main, from the first burst on
unfoldable pub client_main : Bytes → (ℕ → ℕ) → (ℕ → ℤ × Mem) → Mem → Outcome
unfolding run_client
client_main msg rand recvfrom garbage = run_client (client_settings msg) rand recvfrom garbage
