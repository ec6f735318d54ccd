-- ===== src/Api/Server/Deliver.antt =====
-- The loop of app_server_in over the chain of waiting clients.
use kernel_bypass_group_proj.Base.{
  ℕ, zero, suc, ◌+◌, ◌*◌, ◌%◌, ◌^◌, ◌≤◌, ◌<◌, ◌≡◌, ◌≢◌, refl, sym, ◌∙◌, ap, ap₂, subst₂, List, [],
  ◌∷◌, ◌++◌, append_assoc, append-nil, some, true, false, arith, ◌==◌, ltb, length,
}
use kernel_bypass_group_proj.Config.{udp_max_len, local_ip_text}
use kernel_bypass_group_proj.Mem.{Mem, read16, read32}
use kernel_bypass_group_proj.Dpdk.{Dpdk, Ptr, null}
use kernel_bypass_group_proj.World.{
  World, Mbuf, ArpTable, Event, transmit, refcnt_update, log, data_of,
}
use kernel_bypass_group_proj.World.Laws.{Sent}
use kernel_bypass_group_proj.Utils.{ip_str_to_int}
use kernel_bypass_group_proj.Arp.{arp_lookup_mac}
use kernel_bypass_group_proj.Udp.Send.{IsDatagram}
use kernel_bypass_group_proj.Api.Payload.{payload_len_of, init_rcv_app_payload, extract_info}
use kernel_bypass_group_proj.Api.Payload.Send.{app_send-forwards}
use kernel_bypass_group_proj.Api.Server.{forward_to, forward_chain}

-- From `ptr` the `next` pointers lead through these buffers to NULL.
abbrev pub Chain : (Ptr → Mbuf) → Ptr → List Ptr → Type 0
Chain h ptr [] = ptr ≡ null
Chain h ptr (q ∷ qs) = (ptr ≡ q) × (q ≢ null) × Chain h (h q).next qs

-- The buffer `q`, other than the reply's, holds a request of a client whose hardware address is
-- known: with an IP header of 20 bytes, and a length that is accepted.
pub record IsWaiting (h : Ptr → Mbuf) (arp : ArpTable) (pkt_buf q : Ptr) : Type 0 where
  pub apart : q ≢ pkt_buf
  pub bytes : (a : ℕ) → (h q).contents a < 256
  pub short_header : (h q).contents 14 % 16 ≡ 5
  pub accepted : payload_len_of (h q).contents 34 ≤ udp_max_len
  pub mac : Mem
  pub known : arp_lookup_mac arp (read32 (h q).contents 26) ≡ some mac

abbrev pub AllWaiting : (Ptr → Mbuf) → ArpTable → Ptr → List Ptr → Type 0
AllWaiting h arp pkt_buf [] = Unit
AllWaiting h arp pkt_buf (q ∷ qs) = IsWaiting h arp pkt_buf q × AllWaiting h arp pkt_buf qs

-- a client, by its address and its own request id
abbrev pub client_of : Mbuf → ℕ × ℕ
client_of b = (read32 b.contents 26, read16 b.contents 42)

abbrev pub clients_of : (Ptr → Mbuf) → List Ptr → List (ℕ × ℕ)
clients_of h [] = []
clients_of h (q ∷ qs) = client_of (h q) ∷ clients_of h qs

-- What is transmitted for the reply `m` of `n` bytes, out of the buffer `p`: for each client in
-- turn one more reference and one datagram to it, with its request id in front of the reply.
pub data Delivered (d : Dpdk) (p : Ptr) (m : Mem) (n : ℕ) : List (ℕ × ℕ) → List Event → Type 0 where
  nil : Delivered d p m n [] []
  cons :
      {ip id : ℕ} {cs : List (ℕ × ℕ)} {es : List Event} (f mac : Mem)
      → IsDatagram d f f mac ip n
      → extract_info f 42 ≡ id
      → ((i : ℕ) → f (44 + i) ≡ m (44 + i))
      → Delivered d p m n cs es
      → Delivered d p m n ((ip, id) ∷ cs) (refcnt_update p 1 ∷ transmit p f (n + 42) ∷ es)

ptr_is_null : (ptr : Ptr) → ptr ≡ null → (ptr == null) ≡ true
ptr_is_null ptr e = ground arith

ptr_is_not_null : (ptr q : Ptr) → ptr ≡ q → q ≢ null → (ptr == null) ≡ false
ptr_is_not_null ptr q e ne = ground arith

module _ (d : Dpdk) (p : Ptr) (local_small : ip_str_to_int d local_ip_text < 2 ^ 32) where
  forward_to_lem :
      (q : Ptr) (w : World)
      → IsWaiting w.heap w.arp p q
      → payload_len_of (data_of w p) 34 ≤ udp_max_len
      → let n = payload_len_of (data_of w p) 34 in
        let (ip, id) = client_of (w.heap q) in
        (w' : World) × (f : Mem) × (mac : Mem) × (forward_to d p 34 q w ≡ some w')
        × Sent (log w (refcnt_update p 1)) p f (n + 42) w'
        × IsDatagram d f f mac ip n
        × (extract_info f 42 ≡ id)
        × ((i : ℕ) → f (44 + i) ≡ data_of w p (44 + i))
  unfolding forward_to init_rcv_app_payload
  forward_to_lem q w is fits =
      let m = (w.heap q).contents in
      let b = is.bytes in
      let at_34 : 14 + m 14 % 16 * 4 ≡ 34 = omega (arith, is.short_header) in
      let ok : ltb udp_max_len (payload_len_of m 34) ≡ false = ground (arith, is.accepted) in
      let (w', f, ran, sent, dg, id_ok, same) =
        app_send-forwards d (log w (refcnt_update p 1)) p (read32 m 26) (read16 m 42) is.mac
          is.known (omega (arith, b 26, b 27, b 28, b 29)) local_small fits
          (omega (arith, b 42, b 43)) in
      (w', f, is.mac, rw (forward_to, at_34, ok) ran, sent, dg, id_ok, same)

  -- Sending out of `p` leaves the other clients waiting, and the chain as it is.
  still_waiting :
      (h h' : Ptr → Mbuf) (arp arp' : ArpTable) (qs : List Ptr)
      → ((q : Ptr) → q ≢ p → h' q ≡ h q)
      → arp' ≡ arp
      → AllWaiting h arp p qs
      → AllWaiting h' arp' p qs × (clients_of h' qs ≡ clients_of h qs)
  still_waiting h h' arp arp' [] same e is = (tt, refl)
  still_waiting h h' arp arp' (q ∷ qs) same e is =
      let (rest, cs) = still_waiting h h' arp arp' qs same e is.1 in
      let at_q = same q is.0.apart in
      (
        (
          record {
            apart = is.0.apart;
            bytes = rw at_q is.0.bytes;
            short_header = rw at_q is.0.short_header;
            accepted = rw at_q is.0.accepted;
            mac = is.0.mac;
            known = rw (at_q, e) is.0.known;
          },
          rest,
        ),
        ap₂ ◌∷◌ (ap client_of at_q) cs,
      )

  still_Chain :
      (h h' : Ptr → Mbuf) (arp : ArpTable) (ptr : Ptr) (qs : List Ptr)
      → ((q : Ptr) → q ≢ p → h' q ≡ h q)
      → AllWaiting h arp p qs
      → Chain h ptr qs
      → Chain h' ptr qs
  still_Chain h h' arp ptr [] same is c = c
  still_Chain h h' arp ptr (q ∷ qs) same is c =
      (c.0, c.1, rw (same q is.0.apart) (still_Chain h h' arp (h q).next qs same is.1 c.2))

  Delivered-payload :
      {m m' : Mem} {n : ℕ} {cs : List (ℕ × ℕ)} {es : List Event}
      → ((i : ℕ) → m' (44 + i) ≡ m (44 + i))
      → Delivered d p m' n cs es
      → Delivered d p m n cs es
  Delivered-payload same nil = nil
  Delivered-payload same (cons f mac is id body rest) =
      cons f mac is id (λ i. body i ∙ same i) (Delivered-payload same rest)

  -- The loop over the chain of waiting clients, from a pointer whose chain to NULL has no more
  -- buffers than there is fuel, where each buffer is apart from the reply's, holds bytes, has an IP
  -- header of 20 bytes and an accepted length, and comes from an address of the ARP table, and where
  -- the reply is not too long and the local address fits 32 bits: it ends, and delivers the reply to
  -- each client of the chain, in order and to nobody else, each time as one more reference and one
  -- datagram under the client's own request id; no other buffer and no entry of the ARP table
  -- changes.
  pub forward_chain_lem :
      (fuel : ℕ) (qs : List Ptr) (ptr : Ptr) (w : World)
      → length qs ≤ fuel
      → Chain w.heap ptr qs
      → AllWaiting w.heap w.arp p qs
      → payload_len_of (data_of w p) 34 ≤ udp_max_len
      → (w' : World) × (es : List Event) × (forward_chain d fuel p 34 ptr w ≡ some w')
        × (w'.trace ≡ w.trace ++ es)
        × Delivered d p (data_of w p) (payload_len_of (data_of w p) 34) (clients_of w.heap qs) es
        × ((q : Ptr) → q ≢ p → w'.heap q ≡ w.heap q)
        × (w'.arp ≡ w.arp)
  unfolding forward_chain
  forward_chain_lem zero [] ptr w h c is fits = (
    w,
    [],
    rw (forward_chain, ptr_is_null ptr c),
    sym (append-nil w.trace),
    nil,
    λ q ne. refl,
    refl,
  )
  forward_chain_lem zero (q ∷ qs) ptr w h c is fits = absurd (omega arith)
  forward_chain_lem (suc fuel) [] ptr w h c is fits = (
    w,
    [],
    rw (forward_chain, ptr_is_null ptr c),
    sym (append-nil w.trace),
    nil,
    λ q ne. refl,
    refl,
  )
  forward_chain_lem (suc fuel) (q ∷ qs) ptr w h c is fits =
      let n = payload_len_of (data_of w p) 34 in
      let (w1, f, mac, ran, sent, dg, id_ok, same) = forward_to_lem q w is.0 fits in
      let n_ok : payload_len_of (data_of w1 p) 34 ≡ n =
        ap (λ (t : Mem). payload_len_of t 34) sent.filled ∙ omega (arith, dg.dgram_len) in
      let (waiting, cs) = still_waiting w.heap w1.heap w.arp w1.arp qs sent.others sent.arp is.1 in
      let chain = still_Chain w.heap w1.heap w.arp (w.heap q).next qs sent.others is.1 c.2 in
      let next_ok : (w1.heap q).next ≡ (w.heap q).next =
        ap (λ (b : Mbuf). b.next) (sent.others q is.0.apart) in
      let (w2, es, ran2, tr, del, others, arp_ok) =
        forward_chain_lem fuel qs (w1.heap q).next w1 (omega arith) (rw next_ok chain) waiting
          (rw n_ok fits) in
      (
        w2,
        refcnt_update p 1 ∷ transmit p f (n + 42) ∷ es,
        rw c.0 (rw (forward_chain, ptr_is_not_null q q refl c.1, ran) ran2),
        tr
            ∙ ap (λ (t : List Event). t ++ es) sent.trace
            ∙ append_assoc (w.trace ++ refcnt_update p 1 ∷ []) (transmit p f (n + 42) ∷ []) es
            ∙ append_assoc w.trace (refcnt_update p 1 ∷ []) (transmit p f (n + 42) ∷ es),
        cons f mac dg id_ok same (
            Delivered-payload (λ i. ap (λ (t : Mem). t (44 + i)) sent.filled ∙ same i)
              (subst₂ (λ (k : ℕ) (l : List (ℕ × ℕ)). Delivered d p (data_of w1 p) k l es) n_ok cs
                del)),
        λ r ne. others r ne ∙ sent.others r ne,
        arp_ok ∙ sent.arp,
      )
