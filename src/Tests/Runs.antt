-- ===== src/Tests/Runs.antt =====
-- Examples of runs: the main loop, and a request with its reply.
use kernel_bypass_group_proj.Base.{
  ℕ, ◌<◌, ◌≢◌, ◌++◌, ◌≡◌, refl, List, [], ◌∷◌, Option, none, some, true, arith, length, codes,
  bytes_eq,
}
use kernel_bypass_group_proj.Config.{max_key_length}
use kernel_bypass_group_proj.World.{World, Mbuf, Event, transmit, free}
use kernel_bypass_group_proj.Dpdk.{Ptr}
use kernel_bypass_group_proj.Utils.{get_local_ip, ip_is_multicast, ip_str_to_int}
use kernel_bypass_group_proj.Eth.{eth_out}
use kernel_bypass_group_proj.Ip.{ip_out}
use kernel_bypass_group_proj.Mem.{read16, read32}
use kernel_bypass_group_proj.Arp.{arp_lookup_mac}
use kernel_bypass_group_proj.Api.State.{State, init_hashmap}
use kernel_bypass_group_proj.Api.Keys.{c_str, strip_keys, construct_keys_packet, strip_key_value}
use kernel_bypass_group_proj.Api.Server.{
  refresh_backlog, app_server_in, reply_key, steer, track_request, forward_chain, count_packet,
}
use kernel_bypass_group_proj.Api.Client.{
  app_client_in, add_key, current_buf, register, reset_count, is_full, enqueue,
}
use kernel_bypass_group_proj.Api.Payload.{
  init_rcv_app_payload, app_send, init_send_app_payload, init_net_sge,
}
use kernel_bypass_group_proj.Api.Group.{insert_ukey_group, has_key}
use kernel_bypass_group_proj.Api.Signature.{print_signature}
use kernel_bypass_group_proj.Api.Flush.{construct_pkt_and_send_to_server}
use kernel_bypass_group_proj.Udp.{udp_send}
use kernel_bypass_group_proj.Api.State.{copy_mbuf, copy_small}
use kernel_bypass_group_proj.Receive.{Env, eth_in, lcore_main}
use kernel_bypass_group_proj.Api.State.{◌>>=◌}
use kernel_bypass_group_proj.Api.Signature.{signature}
use kernel_bypass_group_proj.Api.Keys.{strstr}
use kernel_bypass_group_proj.World.{set_mbuf, log, data_of}
use kernel_bypass_group_proj.Api.Client.Queue.{make_room, IsListed}
use kernel_bypass_group_proj.Api.Flush.Sends.{IsReady, requested, Asked}
use kernel_bypass_group_proj.Api.Server.Deliver.{IsWaiting, Delivered}
use kernel_bypass_group_proj.Api.Server.Steer.{IsReply}
use kernel_bypass_group_proj.Api.Server.Later.{IsLater, app_server_in-later}
use kernel_bypass_group_proj.Api.Trip.{Served}
use kernel_bypass_group_proj.Receive.Trip.{frame_to_reply}
use kernel_bypass_group_proj.Receive.Dispatch.{IsInbound}
use kernel_bypass_group_proj.Tests.{
  state, state-IsGroup, baz-IsByteKey, local_small, target_small, server_known, client_known,
  frame_small, toy, toy_laws, toy_place, world, frame, frame_bytes, request_bytes, client_ip, hosts,
}

abbrev pub env : Env
env = record { fuel = 3; buffer = []; key = [] }

abbrev request_buffer : Mbuf
request_buffer = record { contents = frame request_bytes; next = 0; pkt_len = 59; data_len = 59 }

abbrev reply_buffer : Mbuf
reply_buffer = record {
  contents = frame (frame_bytes 3 0 0 1 13 (codes "VALUE foo 0 3"));
  next = 0;
  pkt_len = 65;
  data_len = 65;
}

abbrev start : State toy
start = init_hashmap toy world (λ i. 5)

abbrev or_start : Option (State toy) → State toy
or_start none = start
or_start (some s) = s

-- the request `get foo` of the client 10.1.0.4, then the server's reply to the request 0
abbrev pub bursts : List (List (Ptr × Mbuf))
bursts = ((2, request_buffer) ∷ []) ∷ ((1, reply_buffer) ∷ []) ∷ []

abbrev pub after : State toy
after = or_start (lcore_main env bursts start)

pub ran : lcore_main env bursts start ≡ some after
unfolding lcore_main refresh_backlog init_hashmap get_local_ip arp_lookup_mac app_client_in
    init_rcv_app_payload strip_keys c_str insert_ukey_group has_key print_signature
    construct_keys_packet add_key current_buf register reset_count is_full bytes_eq
    construct_pkt_and_send_to_server app_send udp_send ip_str_to_int init_send_app_payload
    init_net_sge copy_small copy_mbuf enqueue ip_is_multicast ip_out app_server_in strip_key_value
    reply_key steer track_request forward_chain count_packet eth_out
ran = refl

-- the client's address and request id, in the frame that went out last
abbrev last_frame : List Event → ℕ × ℕ → ℕ × ℕ
last_frame [] r = r
last_frame (transmit _ f _ ∷ es) r = last_frame es (read32 f 30, read16 f 42)
last_frame (_ ∷ es) r = last_frame es r

-- The reply has gone to the client, under its own request id.
reply_test : last_frame after.world.trace (0, 0) ≡ (client_ip, 7)
unfolding lcore_main refresh_backlog init_hashmap get_local_ip arp_lookup_mac app_client_in
    init_rcv_app_payload strip_keys c_str insert_ukey_group has_key print_signature
    construct_keys_packet add_key current_buf register reset_count is_full bytes_eq
    construct_pkt_and_send_to_server app_send udp_send ip_str_to_int init_send_app_payload
    init_net_sge copy_small copy_mbuf enqueue ip_is_multicast ip_out app_server_in strip_key_value
    reply_key steer track_request forward_chain count_packet eth_out
reply_test = refl

pub short : length (c_str env.buffer) < max_key_length
unfolding c_str
short = ground arith

-- The key `baz` joins the group, and the server answers the request 5.
abbrev asking_buffer : Mbuf
asking_buffer = record {
  contents = frame (frame_bytes 4 7 0 1 7 (codes "get baz\r\n"));
  next = 0;
  pkt_len = 59;
  data_len = 59;
}

abbrev quiet : State toy
quiet = record state {
  world = set_mbuf world 2 asking_buffer;
  client_pkts = toy.empty_table;
  memcached_pkt = 3;
}

baz-IsWaiting : IsWaiting quiet.world.heap quiet.world.arp 1 2
baz-IsWaiting = record {
  apart = λ e. omega (arith, e);
  bytes = frame_small (frame_bytes 4 7 0 1 7 (codes "get baz\r\n")) refl;
  short_header = refl;
  accepted = ground arith;
  mac = λ i. 4;
  known = client_known;
}

baz-IsInbound : IsInbound toy hosts asking_buffer.contents
unfolding get_local_ip
baz-IsInbound = record {
  ether_type = refl;
  short_header = refl;
  protocol = refl;
  dst_addr = refl;
  mac = λ i. 4;
  known = client_known;
  dst_port = refl;
}

quiet-IsListed : IsListed toy quiet.client_pkts quiet.lru_queue quiet.lru_ptr
quiet-IsListed = record { listed = λ j there. absurd (there refl); ptr_in = ground arith }

quiet-IsReady : IsReady quiet (λ i. 3)
quiet-IsReady = record {
  known = server_known;
  target_small = target_small;
  local_small = local_small;
  template = λ e. omega (arith, e);
  short_header = refl;
  id_small = ground arith;
}

baz_short : length (signature 5 (codes "baz")) < max_key_length
unfolding signature
baz_short = ground arith

abbrev baz_buffer : Mbuf
baz_buffer = record {
  contents = frame (frame_bytes 3 5 0 1 13 (codes "VALUE baz 0 3"));
  next = 0;
  pkt_len = 65;
  data_len = 65;
}

answer-IsInbound : IsInbound toy hosts baz_buffer.contents
unfolding get_local_ip
answer-IsInbound = record {
  ether_type = refl;
  short_header = refl;
  protocol = refl;
  dst_addr = refl;
  mac = λ i. 3;
  known = server_known;
  dst_port = refl;
}

baz-IsReply : IsReply toy baz_buffer.contents (codes "baz")
unfolding c_str
baz-IsReply = record {
  accepted = ground arith;
  key = baz-IsByteKey.0;
  rest = codes "0 3";
  text = codes "baz 0 3";
  message = refl;
  c_string = refl;
}

trip_example :
    (s1 : State toy) × (w : World) × (eth_in env 2 quiet ≡ some (requested s1 w s1.ukey []))
    × Asked s1 (λ i. 3) s1.ukey w
    × (has_key (codes "baz") s1.ukey ≡ true)
    × (i : ℕ) × Served
        (eth_in env 1 (record (requested s1 w s1.ukey []) { world = set_mbuf w 1 baz_buffer }))
        (record (requested s1 w s1.ukey []) { world = set_mbuf w 1 baz_buffer })
        1
        (codes "baz")
        i
        2
        ((client_ip, 7) ∷ [])
        baz_buffer.contents
        5
unfolding has_key bytes_eq init_rcv_app_payload strip_keys c_str get_local_ip ip_str_to_int
    arp_lookup_mac
trip_example =
    frame_to_reply toy_laws env quiet (codes "baz") 2 state-IsGroup baz-IsByteKey quiet-IsListed
      baz_short refl (toy_place (make_room quiet) (signature quiet.request_id (codes "baz")) 2) 1
      baz_buffer (record { req_id = 42; hdr = 44; payload = 50; msg_len = 7; total_len = 17 })
      (omega arith) (omega arith) (omega arith) quiet-IsReady baz-IsInbound (λ e. omega (arith, e))
      refl refl baz-IsWaiting (λ e. omega (arith, e)) refl (λ e. omega (arith, e)) answer-IsInbound
      refl baz-IsReply refl

-- A later datagram of the reply about `foo`, which does not name it.
abbrev end_buffer : Mbuf
end_buffer = record {
  contents = frame (frame_bytes 3 5 1 2 3 (codes "END"));
  next = 0;
  pkt_len = 55;
  data_len = 55;
}

abbrev halfway : State toy
halfway = record state { last_key = codes "5-foo"; world = set_mbuf world 1 end_buffer }

end-IsLater : IsLater toy (data_of halfway.world 1)
unfolding c_str strstr
end-IsLater = record { accepted = ground arith; no_value = refl }

halfway-IsWaiting : IsWaiting halfway.world.heap halfway.world.arp 1 2
halfway-IsWaiting = record {
  apart = λ e. omega (arith, e);
  bytes = frame_small request_bytes refl;
  short_header = refl;
  accepted = ground arith;
  mac = λ i. 4;
  known = client_known;
}

later_example :
    (w : World) × (es : List Event) × (app_server_in 3 [] 1 34 halfway ≡ (
      track_request 5 1 (record halfway { world = log w (free 1) }) >>= λ s.
      some (count_packet 0 2 2 (record s { last_seq_id = 1 }))))
    × (w.trace ≡ [] ++ es)
    × Delivered toy 1 (data_of halfway.world 1) 13 ((client_ip, 7) ∷ []) es
    × ((q : Ptr) → q ≢ 1 → w.heap q ≡ halfway.world.heap q)
unfolding bytes_eq
later_example =
    app_server_in-later halfway 1 end-IsLater 3 [] (2 ∷ []) 0 2 refl
      (refl, (λ e. omega (arith, e)), refl) (halfway-IsWaiting, tt) (omega arith) local_small
