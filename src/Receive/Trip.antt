-- ===== src/Receive/Trip.antt =====
-- From the frame of a client's request to the frame of its reply: lcore_main's eth_in on the one and
-- on the other.
use kernel_bypass_group_proj.Base.{
  ℕ, ◌≤◌, ◌<◌, ◌≡◌, ◌≢◌, refl, sym, ◌∙◌, ap, subst, Bytes, [], ◌∷◌, Option, some, none, true, false,
  arith, ◌==◌, ltb, length,
}
use kernel_bypass_group_proj.Config.{target_ip_text, max_key_length, min_outstanding_req}
use kernel_bypass_group_proj.Mem.{Mem, read32, slice}
use kernel_bypass_group_proj.Dpdk.{Dpdk, Laws, Ptr, null}
use kernel_bypass_group_proj.World.{World, Mbuf, data_of}
use kernel_bypass_group_proj.World.Laws.{heap-set_mbuf}
use kernel_bypass_group_proj.Utils.{ip_str_to_int}
use kernel_bypass_group_proj.Api.State.{State}
use kernel_bypass_group_proj.Api.Keys.{strip_keys}
use kernel_bypass_group_proj.Api.Keys.Size.{packed}
use kernel_bypass_group_proj.Api.Signature.{signature}
use kernel_bypass_group_proj.Api.Payload.{AppPayload, init_rcv_app_payload, extract_info}
use kernel_bypass_group_proj.Api.Group.{has_key}
use kernel_bypass_group_proj.Api.Group.Bounds.{IsByteKey, IsGroup}
use kernel_bypass_group_proj.Api.Flush.{construct_pkt_and_send_to_server}
use kernel_bypass_group_proj.Api.Flush.Sends.{IsReady, requested, Asked}
use kernel_bypass_group_proj.Api.Client.{init_memcached_pkt, add_key, add_keys, app_client_in}
use kernel_bypass_group_proj.Api.Client.Queue.{IsListed, HasPlace}
use kernel_bypass_group_proj.Api.Client.Add.{group_with, add_key_keeps}
use kernel_bypass_group_proj.Api.Server.Deliver.{IsWaiting, client_of}
use kernel_bypass_group_proj.Api.Server.Steer.{IsReply}
use kernel_bypass_group_proj.Api.Server.{app_server_in}
use kernel_bypass_group_proj.Api.Trip.{Served, answered, request_to_reply}
use kernel_bypass_group_proj.Receive.{Env, eth_in}
use kernel_bypass_group_proj.Receive.Dispatch.{IsInbound, eth_in-inbound}

test_true : {a b : ℕ} → a ≡ b → (a == b) ≡ true
test_true e = ground arith

test_false : (a b : ℕ) → a ≢ b → (a == b) ≡ false
test_false a b ne = ground arith

same_some {ℓ} : {A : Type ℓ} {a b : A} {o : Option A} → o ≡ some a → o ≡ some b → a ≡ b
same_some e f = cc

-- The request of a client for one key, with a template at hand and room for one more request.
app_client_in-one :
    {d : Dpdk} (garbage : Bytes) (p : Ptr) (key : Bytes) (s s1 s2 : State d) (ap : AppPayload)
    → init_rcv_app_payload (data_of s.world p) 34 ≡ some ap
    → strip_keys garbage (slice (data_of s.world p) ap.payload ap.msg_len) ≡ some (key ∷ [])
    → s.memcached_pkt ≢ null
    → add_key true p key s ≡ some s1
    → s1.outstanding_req < min_outstanding_req
    → construct_pkt_and_send_to_server false s1 ≡ some s2
    → app_client_in garbage p 34 s ≡ some s2
unfolding app_client_in init_memcached_pkt add_keys
app_client_in-one garbage p key s s1 s2 ap accepted stripped template added few sent =
    let there : (s.memcached_pkt == null) ≡ false = test_false _ _ template in
    let test : ltb s1.outstanding_req min_outstanding_req ≡ true = ground (arith, few) in
    rw (app_client_in, accepted, stripped, there, added, test, sent) refl

eth_in-server :
    {d : Dpdk} (env : Env) (q : Ptr) (s : State d)
    → IsInbound d s.world.arp (data_of s.world q)
    → read32 (data_of s.world q) 26 ≡ ip_str_to_int d target_ip_text
    → eth_in env q s ≡ app_server_in env.fuel env.key q 34 s
eth_in-server {d} env q s inbound server =
    let from_server : (read32 (data_of s.world q) 26 == ip_str_to_int d target_ip_text) ≡ true =
      test_true server in
    eth_in-inbound env q s inbound ∙ rw from_server refl

module _ {d : Dpdk} (laws : Laws d) (env : Env) (s : State d) (key : Bytes) (p : Ptr)
    (group : IsGroup s.ukey s.total_ukey_size) (is : IsByteKey key)
    (listed : IsListed d s.client_pkts s.lru_queue s.lru_ptr)
    (fits : length (signature s.request_id key) < max_key_length)
    (absent : d.lookup_data s.client_pkts (signature s.request_id key) ≡ none)
    (place : HasPlace s (signature s.request_id key) p) where
  -- From the frame of a request to the frame of its reply. For a hash table with the laws of rte_hash
  -- whose keys all stand in LRU_queue, a valid group, a key of bytes that takes it to at most 1457
  -- bytes with its separators, whose signature fits its array, is not in the table and has a place
  -- there, as rte_hash_add_key_data need not find one, a server that can be reached, a template packet, and fewer than MIN_OUTSTANDING_REQ requests under way: when
  -- eth_in is given a UDP datagram to this host and port from a client of the ARP table, whose
  -- message has this one key, in a buffer that can be answered, apart from the template and with no
  -- chain behind it, it transmits one request for a group that has the key, under the current request
  -- id, and returns; and when a datagram of the server, a reply to that id about the key, arrives in
  -- another buffer, eth_in, with fuel for one client, delivers it to this client and nobody else,
  -- under the client's own request id, releases it once and goes on to track the request.
  pub frame_to_reply :
      {mac : Mem} (q : Ptr) (b : Mbuf) (msg : AppPayload)
      → 1 ≤ env.fuel
      → packed (group_with laws s key p group is listed fits absent place) ≤ 1457
      → s.outstanding_req < min_outstanding_req
      → IsReady s mac
      → IsInbound d s.world.arp (data_of s.world p)
      → read32 (data_of s.world p) 26 ≢ ip_str_to_int d target_ip_text
      → init_rcv_app_payload (data_of s.world p) 34 ≡ some msg
      → strip_keys env.buffer (slice (data_of s.world p) msg.payload msg.msg_len) ≡ some (key ∷ [])
      → IsWaiting s.world.heap s.world.arp q p
      → p ≢ null
      → (s.world.heap p).next ≡ null
      → p ≢ s.memcached_pkt
      → IsInbound d s.world.arp b.contents
      → read32 b.contents 26 ≡ ip_str_to_int d target_ip_text
      → IsReply d b.contents key
      → extract_info b.contents 42 ≡ s.request_id
      → (s1 : State d) × (w : World) × (eth_in env p s ≡ some (requested s1 w s1.ukey []))
        × Asked s1 mac s1.ukey w
        × (has_key key s1.ukey ≡ true)
        × (i : ℕ) × Served
            (eth_in env q (answered laws s key p group is listed fits absent place s1 w q b))
            (answered laws s key p group is listed fits absent place s1 w q b)
            q
            key
            i
            p
            (client_of (s.world.heap p) ∷ [])
            b.contents
            s.request_id
  frame_to_reply q b msg some_fuel room few ready inbound client accepted stripped waits there alone
        apart inbound' server reply same_id =
      let (s1, w, added, sent, asked, has, i, served) =
        request_to_reply laws s key p group is listed fits absent place q b env.fuel env.key
          some_fuel room ready waits there alone apart reply same_id in
      let (s1', added', a, _) =
        add_key_keeps laws s key p group is listed fits absent place (omega (arith, room)) in
      let same : s1 ≡ s1' = same_some added added' in
      let outstanding : s1.outstanding_req < min_outstanding_req = rw (same, a.outstanding) few in
      let from_client : (read32 (data_of s.world p) 26 == ip_str_to_int d target_ip_text) ≡ false =
        test_false _ _ client in
      let s3 = answered laws s key p group is listed fits absent place s1 w q b in
      let at_q : data_of s3.world q ≡ b.contents =
        ap (λ (c : Mbuf). c.contents) (heap-set_mbuf w q b) in
      let arp_ok : s3.world.arp ≡ s.world.arp =
        asked.transmitted.arp ∙ ap (λ (u : State d). u.world.arp) same ∙ a.arp in
      let reaches : eth_in env q s3 ≡ app_server_in env.fuel env.key q 34 s3 =
        eth_in-server env q s3 (rw (at_q, arp_ok) inbound') (rw at_q server) in
      (
        s1,
        w,
        eth_in-inbound env p s inbound
            ∙ rw from_client (
                app_client_in-one env.buffer p key s s1 _ msg accepted stripped ready.template added
                  outstanding sent),
        asked,
        has,
        i,
        subst
            (λ (o : Option (State d)).
              Served o s3 q key i p (client_of (s.world.heap p) ∷ []) b.contents s.request_id)
            (sym reaches) served,
      )
