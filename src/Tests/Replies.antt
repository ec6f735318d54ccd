-- ===== src/Tests/Replies.antt =====
-- Examples of the server's replies on their way to the clients.
use kernel_bypass_group_proj.Base.{
  ◌==◌, if◌then◌else◌, ℕ, ◌<◌, ◌≡◌, ◌≢◌, refl, List, [], ◌∷◌, ◌++◌, some, arith, length, codes,
  bytes_eq,
}
use kernel_bypass_group_proj.World.{World, Event, free, log, data_of}
use kernel_bypass_group_proj.Api.State.{State, log_event, ◌>>=◌}
use kernel_bypass_group_proj.Api.Keys.{c_str}
use kernel_bypass_group_proj.Api.Signature.{signature}
use kernel_bypass_group_proj.Config.{max_key_length}
use kernel_bypass_group_proj.Api.Server.{forward_chain, track_request, count_packet, app_server_in}
use kernel_bypass_group_proj.Api.Server.Deliver.{Chain, IsWaiting, Delivered, forward_chain_lem}
use kernel_bypass_group_proj.Api.Server.Steer.{
  IsReply, holding, app_server_in_lem, app_server_in-unknown,
}
use kernel_bypass_group_proj.Base.Int.{pos, negsuc}
use kernel_bypass_group_proj.Api.Flush.Sends.{IsReady, Asked}
use kernel_bypass_group_proj.Api.Server.{refresh_backlog}
use kernel_bypass_group_proj.Api.Server.Backlog.{refresh_backlog_sends}
use kernel_bypass_group_proj.Api.Server.Track.{
  track_replies, send_if_room, fulfilled, track_replies_lem,
}
use kernel_bypass_group_proj.Tests.{
  server_known, target_small, not_empty, toy, world, state, frame, frame_small, reply_bytes,
  request_bytes, client_ip, foo-IsByteKey, local_small, client_known,
}

pub two-IsWaiting : IsWaiting world.heap world.arp 1 2
two-IsWaiting = record {
  apart = λ e. omega (arith, e);
  bytes = frame_small request_bytes refl;
  short_header = refl;
  accepted = ground arith;
  mac = λ i. 4;
  known = client_known;
}

two-Chain : Chain world.heap 2 (2 ∷ [])
two-Chain = (refl, (λ e. omega (arith, e)), refl)

-- One client waits, in the buffer 2.
chain_example :
    (w : World) × (es : List Event) × (forward_chain toy 3 1 34 2 world ≡ some w)
    × (w.trace ≡ world.trace ++ es)
    × Delivered toy 1 (frame reply_bytes) 23 ((client_ip, 7) ∷ []) es
    × ((q : ℕ) → q ≢ 1 → w.heap q ≡ world.heap q)
    × (w.arp ≡ world.arp)
chain_example =
    forward_chain_lem toy 1 local_small 3 (2 ∷ []) 2 world (omega arith) two-Chain
      (two-IsWaiting, tt) (ground arith)

datagram-IsReply : IsReply toy (data_of state.world 1) (codes "foo")
unfolding c_str
datagram-IsReply = record {
  accepted = ground arith;
  key = foo-IsByteKey.0;
  rest = codes "0 3";
  text = codes "foo 0 3";
  message = refl;
  c_string = refl;
}

signature_short : length (signature 5 (codes "foo")) < max_key_length
unfolding signature
signature_short = ground arith

found : toy.lookup_data state.client_pkts (signature 5 (codes "foo")) ≡ some (0, 2)
unfolding signature bytes_eq
found = refl

-- `5-foo` is in the table.
server_example :
    (w : World) × (es : List Event) × (app_server_in 3 [] 1 34 state ≡ (
      track_request 5 0
        (record (holding state (signature 5 (codes "foo")) 1) { world = log w (free 1) })
      >>= λ s. some (count_packet 0 2 1 (record s { last_seq_id = 0 }))))
    × (w.trace ≡ state.world.trace ++ es)
    × Delivered toy 1 (frame reply_bytes) 23 ((client_ip, 7) ∷ []) es
    × ((q : ℕ) → q ≢ 1 → w.heap q ≡ state.world.heap q)
server_example =
    app_server_in_lem state 1 (codes "foo") datagram-IsReply 3 [] signature_short (2 ∷ []) 0 2 found
      two-Chain (two-IsWaiting, tt) (omega arith) local_small

-- nobody waits
abbrev idle : State toy
idle = record state { client_pkts = toy.empty_table }

unknown_reply_example :
    app_server_in 3 [] 1 34 idle
    ≡ some (log_event (holding idle (signature 5 (codes "foo")) 1) (free 1))
unknown_reply_example =
    app_server_in-unknown idle 1 (codes "foo") datagram-IsReply 3 [] signature_short refl

-- Two keys have waited for 200 milliseconds.
abbrev late : State toy
late = record state { last_send_clock = 1; clock_at = λ i. 200000 }

late-IsReady : IsReady late (λ i. 3)
late-IsReady = record {
  known = server_known;
  target_small = target_small;
  local_small = local_small;
  template = λ e. omega (arith, e);
  short_header = refl;
  id_small = ground arith;
}

backlog_example :
    (w : World) × (s : State toy) × (refresh_backlog late ≡ some s)
    × Asked late (λ i. 3) late.ukey w
    × (s.world ≡ w)
    × (s.ukey ≡ [])
    × (s.request_id ≡ 6)
    × (s.outstanding_req ≡ 1)
    × ((i : ℕ) → i < 60000 → s.keys_rcvd i ≡ (if i == 5 then pos 0 else negsuc 0))
    × (s.last_send_clock ≡ 200000)
backlog_example =
    refresh_backlog_sends late (λ e. omega (arith, e)) not_empty (omega arith) late-IsReady
      (omega arith)

-- Four keys have been asked for: the third reply fulfils the request.
abbrev busy : State toy
busy = record state { keys_sent = λ i. 4; keys_rcvd = λ i. pos 0; outstanding_req = 1500 }

track_example : track_replies 3 5 busy ≡ send_if_room (fulfilled busy 5)
track_example = track_replies_lem 5 (ground arith) 2 0 busy refl (omega arith)

-- Between two datagrams of the reply about `foo` a client has asked for `bar`.
abbrev interrupted : State toy
interrupted = record state { last_key = codes "5-foo"; key_hold = codes "6-bar" }

-- The last datagram deletes what key_hold names, and the released chain stays in the table.
stale_test :
    toy.lookup_data (count_packet 0 2 1 interrupted).client_pkts (codes "5-foo") ≡ some (0, 2)
unfolding count_packet bytes_eq
stale_test = refl
