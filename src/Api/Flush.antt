-- ===== src/Api/Flush.antt =====
-- middlebox/src/api.c, construct_pkt_and_send_to_server: one request for the keys of the group.
pub mod Sends
use kernel_bypass_group_proj.Base.{
  ℕ, suc, ◌+◌, ◌-◌, ◌%◌, ◌^◌, Bytes, List, [], ◌∷◌, Option, none, some, Bool, true, false, ◌==◌,
  leb, ltb, if◌then◌else◌, length, take, get_or,
}
use kernel_bypass_group_proj.Base.Int.{pos}
use kernel_bypass_group_proj.Config.{max_payload_len, max_req_id, target_ip_text}
use kernel_bypass_group_proj.Dpdk.{Dpdk, null}
use kernel_bypass_group_proj.World.{World, refcnt_update, log, data_of}
use kernel_bypass_group_proj.Utils.{ip_str_to_int}
use kernel_bypass_group_proj.Api.State.{State, update, read_clock, log_event, ◌>>=◌}
use kernel_bypass_group_proj.Api.Keys.{construct_keys_packet}
use kernel_bypass_group_proj.Api.Payload.{app_send, get_iph_udph_from_buf}

-- `none` where the text and its NUL do not fit `char payload[MAX_PAYLOAD_LEN]`
unfoldable pub into_payload : Bytes → Option Bytes
into_payload text = if ltb (length text) max_payload_len then some text else none

-- The keys that are sent, and the group that is left: all of it but the last key, which starts
-- the next group, or all of it.
unfoldable pub split_group : Bool → List Bytes → List Bytes × List Bytes
split_group true ukey = let n = length ukey - 1 in (take n ukey, get_or ukey n [] ∷ [])
split_group false ukey = (ukey, [])

-- strlen of the key that is kept, or 0
unfoldable pub kept_size : List Bytes → ℕ
kept_size [] = 0
kept_size (k ∷ ks) = length k % 2 ^ 16

module _ {d : Dpdk} where
  unfoldable pub send_group : State d → List Bytes → List Bytes → Option (State d)
  unfolding into_payload kept_size
  send_group s sent kept = do
    payload ← into_payload (construct_keys_packet sent)
    let r = s.request_id
    w ←
        app_send d (log s.world (refcnt_update s.memcached_pkt 1)) s.memcached_pkt
          (get_iph_udph_from_buf (data_of s.world s.memcached_pkt)).1 payload r
          (ip_str_to_int d target_ip_text) true
    let (now, s') = read_clock s
    some (record s' {
      world = w;
      ukey = kept;
      total_ukey_size = kept_size kept;
      keys_sent = update s.keys_sent r (length sent);
      outstanding_req = (s.outstanding_req + 1) % 2 ^ 16;
      keys_rcvd = update s.keys_rcvd r (pos 0);
      request_id = (r + 1) % max_req_id;
      last_send_clock = now;
    })

  -- `none` is a NULL packet, a payload that overflows its array, or a failed assert.
  unfoldable pub construct_pkt_and_send_to_server : Bool → State d → Option (State d)
  unfolding split_group send_group
  construct_pkt_and_send_to_server full_pkt s =
      if length s.ukey == 0
      then some s
      else if s.memcached_pkt == null
      then none
      else (let (sent, kept) = split_group full_pkt s.ukey in send_group s sent kept)
