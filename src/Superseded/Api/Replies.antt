-- ===== src/Superseded/Api/Replies.antt =====
-- deprecated/api.c, app_server_in: what the clients that wait for a reply are sent.
use kernel_bypass_group_proj.Base.{
  ◌+◌, ◌^◌, ◌≤◌, ◌<◌, ◌≡◌, ◌≢◌, refl, sym, ◌∙◌, ap, Bytes, List, [], ◌∷◌, ◌++◌, append_assoc,
  append-nil, some, length, All,
}
use kernel_bypass_group_proj.Config.{max_payload_len, local_ip_text}
use kernel_bypass_group_proj.Mem.{Mem, slice}
use kernel_bypass_group_proj.Dpdk.{Dpdk, Ptr}
use kernel_bypass_group_proj.World.{World, ArpTable, Event, transmit}
use kernel_bypass_group_proj.Utils.{ip_str_to_int}
use kernel_bypass_group_proj.Arp.{arp_lookup_mac}
use kernel_bypass_group_proj.Udp.Send.{IsDatagram}
use kernel_bypass_group_proj.Clients.Datagram.{datagram}
use kernel_bypass_group_proj.Superseded.Api.{ClientInfo, Limits, Junk, reply_to}
use kernel_bypass_group_proj.Superseded.Api.Sends.{old_app_send-Sent}

-- The address of a client is in the ARP table.
pub record IsReachable (arp : ArpTable) (client : ClientInfo) : Type 0 where
  pub small : client.src_ip < 2 ^ 32
  pub mac : Mem
  pub known : arp_lookup_mac arp client.src_ip ≡ some mac

-- Every client in turn is sent one datagram, with its own request id and the reply.
pub data Replied (d : Dpdk) (p : Ptr) (arp : ArpTable) (reply : Bytes)
    : List ClientInfo → List Event → Type 0 where
  all_replied : Replied d p arp reply [] []
  replied :
      {client : ClientInfo} {clients : List ClientInfo} {events : List Event} (mac f : Mem)
      → arp_lookup_mac arp client.src_ip ≡ some mac
      → IsDatagram d f f mac client.src_ip (length reply + 10)
      → slice f 42 (10 + length reply) ≡ datagram client.req_id reply
      → Replied d p arp reply clients events
      → Replied d p arp reply (client ∷ clients) (transmit p f (length reply + 52) ∷ events)

module _ (d : Dpdk) (c : Limits) (junk : Junk) (large : c.max_length < 2 ^ 16)
    (local_small : ip_str_to_int d local_ip_text < 2 ^ 32) where
  pub reply_to-Replied :
      (p : Ptr) (reply : Bytes) (clients : List ClientInfo) (w : World) (arp : ArpTable)
      → length reply + 10 ≤ c.max_length
      → length reply ≤ max_payload_len
      → w.arp ≡ arp
      → All (IsReachable arp) clients
      → (w' : World) × (events : List Event) × (reply_to d c junk p 34 reply clients w ≡ some w')
        × (w'.trace ≡ w.trace ++ events)
        × Replied d p arp reply clients events
        × (w'.arp ≡ arp)
        × ((q : Ptr) → q ≢ p → w'.heap q ≡ w.heap q)
  unfolding reply_to
  reply_to-Replied p reply [] w arp fits small same h =
      (w, [], refl, sym (append-nil w.trace), all_replied, same, λ q ne. refl)
  reply_to-Replied p reply (client ∷ clients) w arp fits small same h =
      let (w1, f, ran, sent, is, body) =
        old_app_send-Sent d c junk large local_small w p reply client.req_id client.src_ip h.0.mac
          fits small h.0.small (ap (λ t. arp_lookup_mac t client.src_ip) same ∙ h.0.known) in
      let (w2, events, ran2, trace, each, same2, others) =
        reply_to-Replied p reply clients w1 arp fits small (sent.arp ∙ same) h.1 in
      (
        w2,
        transmit p f (length reply + 52) ∷ events,
        rw ran ran2,
        trace ∙ ap (λ t. t ++ events) sent.trace ∙ append_assoc w.trace _ events,
        replied h.0.mac f h.0.known is body each,
        same2,
        λ q ne. others q ne ∙ sent.others q ne,
      )
