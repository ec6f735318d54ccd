-- ===== src/Api/Trip.antt =====
-- From a client's request to its reply: app_client_in's round for a key, the request for the group,
-- and app_server_in on the reply to it, one after the other.
use kernel_bypass_group_proj.Base.{
  ℕ, ◌^◌, ◌≤◌, ◌<◌, ◌≡◌, ◌≢◌, refl, ◌∙◌, ap, subst, subst₂, Bytes, List, [], ◌∷◌, ◌++◌, Option,
  some, none, true, false, arith, inl, inr, Bool-cases, bytes_eq_refl, if◌then◌else◌, length,
}
use kernel_bypass_group_proj.Config.{local_ip_text, max_key_length}
use kernel_bypass_group_proj.Mem.{Mem}
use kernel_bypass_group_proj.Dpdk.{Dpdk, Laws, Ptr, null}
use kernel_bypass_group_proj.World.{World, Mbuf, ArpTable, Event, free, log, data_of, set_mbuf}
use kernel_bypass_group_proj.World.Laws.{heap-set_mbuf, heap-set_mbuf_ne}
use kernel_bypass_group_proj.Utils.{ip_str_to_int}
use kernel_bypass_group_proj.Api.State.{State, ◌>>=◌}
use kernel_bypass_group_proj.Api.Keys.Size.{packed}
use kernel_bypass_group_proj.Api.Signature.{signature}
use kernel_bypass_group_proj.Api.Payload.{payload_len_of, extract_info}
use kernel_bypass_group_proj.Api.Group.{has_key}
use kernel_bypass_group_proj.Api.Group.Bounds.{IsByteKey, IsGroup, has_key-append}
use kernel_bypass_group_proj.Api.Flush.{construct_pkt_and_send_to_server}
use kernel_bypass_group_proj.Api.Flush.Sends.{
  IsReady, requested, Asked, construct_pkt_and_send_to_server_all,
}
use kernel_bypass_group_proj.Api.Client.{add_key}
use kernel_bypass_group_proj.Api.Client.Queue.{IsListed, HasPlace}
use kernel_bypass_group_proj.Api.Client.Add.{group_with, add_key_keeps, IsAdded-IsReady}
use kernel_bypass_group_proj.Api.Server.{track_request, count_packet, app_server_in}
use kernel_bypass_group_proj.Api.Server.Deliver.{
  Chain, IsWaiting, AllWaiting, Delivered, clients_of, client_of,
}
use kernel_bypass_group_proj.Api.Server.Steer.{IsReply, holding, app_server_in_lem}

-- A buffer that has not changed waits as it did.
IsWaiting-same :
    {h h' : Ptr → Mbuf} {arp arp' : ArpTable} {p q : Ptr}
    → h' q ≡ h q
    → arp' ≡ arp
    → IsWaiting h arp p q
    → IsWaiting h' arp' p q
IsWaiting-same at e is = record {
  apart = is.apart;
  bytes = rw at is.bytes;
  short_header = rw at is.short_header;
  accepted = rw at is.accepted;
  mac = is.mac;
  known = rw (at, e) is.known;
}

has_key_self :
    (key : Bytes) (ks : List Bytes)
    → has_key key (if has_key key ks then ks else ks ++ key ∷ []) ≡ true
has_key_self key ks = elim (Bool-cases (has_key key ks)) [
  | inl old ↦ rw old old
  | inr new ↦ rw (new, has_key-append key key ks, bytes_eq_refl key) (ground arith)
]

has_key_ne_nil : (key : Bytes) (ks : List Bytes) → has_key key ks ≡ true → ks ≢ []
unfolding has_key
has_key_ne_nil key [] h = cc
has_key_ne_nil key (k ∷ ks) h = λ e. cc

-- `o` is what becomes of the state `s` with the reply `m` of the request `id` about `key` in the
-- buffer `q`: it is delivered to these clients, released and tracked.
abbrev pub Served :
    {d : Dpdk}
    → Option (State d)
    → State d
    → Ptr
    → Bytes
    → ℕ
    → Ptr
    → List (ℕ × ℕ)
    → Mem
    → ℕ
    → Type 0
Served {d} o s q key position head clients m id =
    (w : World) × (es : List Event) × (o ≡ (
      track_request id (extract_info m 44)
        (record (holding s (signature id key) (extract_info m 46)) { world = log w (free q) })
      >>= λ s'. some (
          count_packet position head (extract_info m 46)
            (record s' { last_seq_id = extract_info m 44 }))))
    × (w.trace ≡ s.world.trace ++ es)
    × Delivered d q m (payload_len_of m 34) clients es

served_lem :
    {d : Dpdk} (s : State d) (fuel : ℕ) (array : Bytes) (q : Ptr) (key : Bytes) (position : ℕ)
    (head : Ptr) (qs : List Ptr)
    → Chain s.world.heap head qs
    → AllWaiting s.world.heap s.world.arp q qs
    → length qs ≤ fuel
    → ip_str_to_int d local_ip_text < 2 ^ 32
    → (m : Mem) (id : ℕ) → data_of s.world q ≡ m
    → extract_info m 42 ≡ id
    → IsReply d m key
    → length (signature id key) < max_key_length
    → d.lookup_data s.client_pkts (signature id key) ≡ some (position, head)
    → Served
        (app_server_in fuel array q 34 s)
        s
        q
        key
        position
        head
        (clients_of s.world.heap qs)
        m
        id
served_lem {d} s fuel array q key position head qs chain waiting enough small m id at_q at_id =
    let m0 = data_of s.world q in
    let Goal = λ (m' : Mem) (id' : ℕ).
      IsReply d m' key
      → length (signature id' key) < max_key_length
      → d.lookup_data s.client_pkts (signature id' key) ≡ some (position, head)
      → Served (app_server_in fuel array q 34 s) s q key position head (clients_of s.world.heap qs)
          m' id' in
    let base : Goal m0 (extract_info m0 42) = λ reply fits found.
      (let (w, es, ran, tr, del, _) =
          app_server_in_lem s q key reply fuel array fits qs position head found chain waiting
            enough small in
        (w, es, ran, tr, del)) in
    subst₂ Goal at_q (ap (λ (m' : Mem). extract_info m' 42) at_q ∙ at_id) base

module _ {d : Dpdk} (laws : Laws d) (s : State d) (key : Bytes) (p : Ptr)
    (group : IsGroup s.ukey s.total_ukey_size) (is : IsByteKey key)
    (listed : IsListed d s.client_pkts s.lru_queue s.lru_ptr)
    (fits : length (signature s.request_id key) < max_key_length)
    (absent : d.lookup_data s.client_pkts (signature s.request_id key) ≡ none)
    (place : HasPlace s (signature s.request_id key) p) where
  -- what is asked of the server and what comes back in the buffer `q`
  abbrev pub answered : State d → World → Ptr → Mbuf → State d
  answered s1 w q b = record (requested s1 w s1.ukey []) { world = set_mbuf w q b }

  -- From a request to its reply. For a hash table with the laws of rte_hash whose keys all stand in
  -- LRU_queue, a valid group, a key of bytes that takes it to at most 1457 bytes with its
  -- separators, whose signature fits its array, is not in the table and has a place there, a server that can be
  -- reached, and a packet of a client that can be answered, apart from the template packet and with
  -- no chain behind it: add_key returns; construct_pkt_and_send_to_server then transmits one request
  -- for a group that has the key, under the current request id; and when a reply to that id about
  -- the key arrives in another buffer, app_server_in, with fuel for one client, delivers it to this
  -- client and nobody else, under the client's own request id, releases it once and goes on to track
  -- the request.
  pub request_to_reply :
      {mac : Mem} (q : Ptr) (b : Mbuf) (fuel : ℕ) (array : Bytes)
      → 1 ≤ fuel
      → packed (group_with laws s key p group is listed fits absent place) ≤ 1457
      → IsReady s mac
      → IsWaiting s.world.heap s.world.arp q p
      → p ≢ null
      → (s.world.heap p).next ≡ null
      → p ≢ s.memcached_pkt
      → IsReply d b.contents key
      → extract_info b.contents 42 ≡ s.request_id
      → (s1 : State d) × (w : World) × (add_key true p key s ≡ some s1)
        × (construct_pkt_and_send_to_server false s1 ≡ some (requested s1 w s1.ukey []))
        × Asked s1 mac s1.ukey w
        × (has_key key s1.ukey ≡ true)
        × (i : ℕ) × Served
            (app_server_in fuel array q 34 (answered s1 w q b))
            (answered s1 w q b)
            q
            key
            i
            p
            (client_of (s.world.heap p) ∷ [])
            b.contents
            s.request_id
  request_to_reply q b fuel array some_fuel room ready waits there alone apart reply same_id =
      let ks = group_with laws s key p group is listed fits absent place in
      let (s1, ran, a, g) =
        add_key_keeps laws s key p group is listed fits absent place (omega (arith, room)) in
      let has : has_key key s1.ukey ≡ true = rw a.ukey (has_key_self key s.ukey) in
      let (w, sent, asked) =
        construct_pkt_and_send_to_server_all
          (IsAdded-IsReady laws s key p group is listed fits absent place s1 ready a)
          (has_key_ne_nil key s1.ukey has) (rw a.ukey (omega (arith, room))) in
      let s3 = answered s1 w q b in
      let at_q : data_of s3.world q ≡ b.contents =
        ap (λ (c : Mbuf). c.contents) (heap-set_mbuf w q b) in
      let at_p : s3.world.heap p ≡ s.world.heap p =
        heap-set_mbuf_ne w q p b waits.apart
        ∙ asked.transmitted.others p (λ e. apart (e ∙ a.template))
        ∙ ap (λ (h : Ptr → Mbuf). h p) a.heap in
      let arp_ok : s3.world.arp ≡ s.world.arp = asked.transmitted.arp ∙ a.arp in
      let served =
        served_lem s3 fuel array q key a.position p (p ∷ []) (refl, there, rw at_p alone)
          (IsWaiting-same at_p arp_ok waits, tt) some_fuel ready.local_small b.contents s.request_id
          at_q same_id reply fits a.found in
      (
        s1,
        w,
        ran,
        sent,
        asked,
        has,
        a.position,
        subst
            (λ (c : Mbuf).
              Served (app_server_in fuel array q 34 s3) s3 q key a.position p (client_of c ∷ [])
                b.contents s.request_id)
            at_p served,
      )
