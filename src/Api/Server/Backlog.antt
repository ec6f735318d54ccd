-- ===== src/Api/Server/Backlog.antt =====
-- refresh_backlog, when keys have waited for TIMEOUT milliseconds.
use kernel_bypass_group_proj.Base.{
  ℕ, suc, ◌+◌, ◌-◌, ◌*◌, ◌%◌, ◌≤◌, ◌<◌, ◌≡◌, ◌≢◌, refl, [], some, true, false, arith, leb, ◌==◌,
  if◌then◌else◌,
}
use kernel_bypass_group_proj.Base.Int.{pos, negsuc}
use kernel_bypass_group_proj.Config.{timeout, max_req_id, max_payload_len}
use kernel_bypass_group_proj.Mem.{Mem}
use kernel_bypass_group_proj.Dpdk.{Dpdk}
use kernel_bypass_group_proj.World.{World}
use kernel_bypass_group_proj.Api.State.{State}
use kernel_bypass_group_proj.Api.Keys.Size.{packed}
use kernel_bypass_group_proj.Api.Flush.Sends.{
  IsReady, requested, Asked, length-ne-zero, construct_pkt_and_send_to_server_all,
}
use kernel_bypass_group_proj.Api.Server.{
  clocks_per_sec, start_clock, forget_requests, refresh_backlog,
}

module _ {d : Dpdk} (s : State d) (started : s.last_send_clock ≢ 0) (waiting : s.ukey ≢ []) where
  -- the state that has read the clock
  abbrev pub looked : State d
  looked = record s { clock_reads = suc s.clock_reads }

  start_clock-started : start_clock s ≡ s
  unfolding start_clock
  start_clock-started =
      let later : (s.last_send_clock == 0) ≡ false = ground (arith, started) in rw later

  -- When the clock of the last request has been set, keys wait that fit the payload array, the
  -- server can be reached, and clock() has advanced by at least 100000 since then (TIMEOUT
  -- milliseconds at a million a second): refresh_backlog transmits one request for all keys of the
  -- group under the current request id; afterwards the group is empty, the next request id is the
  -- next number modulo MAX_REQ_ID, the new request is the only outstanding one, every other request
  -- counts as fulfilled, and the clock of the last request is a new reading.
  pub refresh_backlog_sends :
      {mac : Mem}
      → 100000 ≤ s.clock_at s.clock_reads - s.last_send_clock
      → IsReady s mac
      → packed s.ukey + 4 < max_payload_len
      → (w : World) × (s' : State d) × (refresh_backlog s ≡ some s')
        × Asked s mac s.ukey w
        × (s'.world ≡ w)
        × (s'.ukey ≡ [])
        × (s'.request_id ≡ (s.request_id + 1) % max_req_id)
        × (s'.outstanding_req ≡ 1)
        × ((i : ℕ)
            → i < max_req_id
            → s'.keys_rcvd i ≡ (if i == s.request_id then pos 0 else negsuc 0))
        × (s'.last_send_clock ≡ s.clock_at (suc s.clock_reads))
  unfolding refresh_backlog
  refresh_backlog_sends {mac} late ready fits =
      let s1 = forget_requests looked in
      let forgotten : IsReady s1 mac =
        unfold forget_requests in
        record {
          known = ready.known;
          target_small = ready.target_small;
          local_small = ready.local_small;
          template = ready.template;
          short_header = ready.short_header;
          id_small = ready.id_small;
        } in
      let (w, ran, asked) = construct_pkt_and_send_to_server_all forgotten waiting fits in
      let expired : leb (timeout * clocks_per_sec)
            ((s.clock_at s.clock_reads - s.last_send_clock) * 1000)
          ≡ true =
        ground (arith, late) in
      (
        w,
        requested s1 w s.ukey [],
        rw (start_clock-started, length-ne-zero s.ukey waiting, expired) ran,
        record {
          frame = asked.frame;
          transmitted = asked.transmitted;
          datagram = asked.datagram;
          request = asked.request;
        },
        refl,
        refl,
        refl,
        refl,
        λ i lt. ground (arith, lt),
        refl,
      )
