-- ===== src/Api/Run/Client.antt =====
-- app_client_in and refresh_backlog in a run: neither fails, and no key is lost.
use kernel_bypass_group_proj.Base.{
  ℕ, suc, ◌+◌, ◌-◌, ◌*◌, ◌%◌, ◌≤◌, ◌≡◌, ◌⊎◌, refl, sym, ◌∙◌, ap, subst, inl, inr, Bytes, List, [],
  ◌∷◌, Option, some, true, false, arith, ◌==◌, leb, ltb, Bool-cases, append-nil, length, All,
  if◌then◌else◌,
}
use kernel_bypass_group_proj.Base.Int.{ℤ}
use kernel_bypass_group_proj.Config.{min_outstanding_req, timeout}
use kernel_bypass_group_proj.Mem.{slice}
use kernel_bypass_group_proj.Dpdk.{Dpdk, Laws, Ptr, null}
use kernel_bypass_group_proj.World.{World, data_of, set_mbuf}
use kernel_bypass_group_proj.Api.State.{State, copy_mbuf, ◌>>=◌}
use kernel_bypass_group_proj.Api.Keys.{strip_keys}
use kernel_bypass_group_proj.Api.Payload.{AppPayload, init_rcv_app_payload}
use kernel_bypass_group_proj.Api.Flush.{construct_pkt_and_send_to_server}
use kernel_bypass_group_proj.Api.Client.{init_memcached_pkt, app_client_in}
use kernel_bypass_group_proj.Api.Server.{
  clocks_per_sec, start_clock, forget_requests, refresh_backlog,
}
use kernel_bypass_group_proj.Api.Run.{
  IsHeld, IsHeld-Moves, Setting, IsFit, Moves, Steps, HasTemplate, IsIdle, IsBusy, IsLive, Does,
}
use kernel_bypass_group_proj.Api.Run.Compose.{
  Moves-refl, Steps-trans, Steps-quiet, Does-bind, IsOrderly-fewer,
}
use kernel_bypass_group_proj.Api.Run.Register.{set_mbuf-Moves}
use kernel_bypass_group_proj.World.Laws.{heap-set_mbuf}
use kernel_bypass_group_proj.Api.Run.Flush.{flush_all-Does, flush_none, template_there}
use kernel_bypass_group_proj.Api.Run.Keys.{add_keys-Does}

module _ {d : Dpdk} {t : Setting} where
  -- The clock and the accounting of requests are not what a run stands on.
  clock-IsLive :
      {n : ℕ} (s : State d) (last reads outstanding : ℕ) (rcvd : ℕ → ℤ)
      → IsLive t n s
      → IsLive t n (record s {
        last_send_clock = last;
        clock_reads = reads;
        outstanding_req = outstanding;
        keys_rcvd = rcvd;
      })
  clock-IsLive s last reads outstanding rcvd (o, tmpl) = (
    record {
      steady = record {
        listed = o.steady.listed;
        of_run = o.steady.of_run;
        id_small = o.steady.id_small;
        arp = o.steady.arp;
        pool = o.steady.pool;
        enough = o.steady.enough;
      };
      group = o.group;
      wanted = o.wanted;
    },
    go tmpl,
  )
    where
      go :
          HasTemplate t s ⊎ IsIdle s
          → HasTemplate t (record s {
            last_send_clock = last;
            clock_reads = reads;
            outstanding_req = outstanding;
            keys_rcvd = rcvd;
          })
            ⊎ IsIdle (record s {
              last_send_clock = last;
              clock_reads = reads;
              outstanding_req = outstanding;
              keys_rcvd = rcvd;
            })
      go (inl h) = inl (record { pooled = h.pooled; short_header = h.short_header })
      go (inr i) = inr (record { no_template = i.no_template; no_keys = i.no_keys })

  -- A step that asks for no keys of its own, behind one that does.
  Does-then :
      {P Q : State d → Type 0} {xs : List Bytes} {s : State d} {o : Option (State d)}
      (f : State d → Option (State d))
      → Does t P xs s o
      → ((s1 : State d) → P s1 → Does t Q [] s1 (f s1))
      → Does t Q xs s (o >>= f)
  Does-then {P} {Q} {xs} {s} {o} f first next =
      subst (λ ks. Does t Q ks s (o >>= f)) (append-nil xs)
        (Does-bind f first (λ s1 p _. next s1 p))

  pub IsLive-fewer : {m n : ℕ} {s : State d} → m ≤ n → IsLive t n s → IsLive t m s
  IsLive-fewer h (o, template) = (IsOrderly-fewer h o, template)

  busy-IsLive :
      {n : ℕ} {xs : List Bytes} {s : State d} {o : Option (State d)}
      → Does t (IsBusy t n) xs s o
      → Does t (IsLive t n) xs s o
  busy-IsLive (s', e, (o, h), st) = (s', e, (o, inl h), st)

module _ {d : Dpdk} {t : Setting} (fit : IsFit d t) where
  -- After the first packet there is a template, a copy of it.
  init_memcached_pkt-IsBusy :
      (p : Ptr) {n : ℕ} (s : State d)
      → IsLive t (1 + n) s
      → data_of s.world p 14 % 16 ≡ 5
      → IsBusy t n (init_memcached_pkt p s) × Steps t [] s (init_memcached_pkt p s)
  unfolding init_memcached_pkt copy_mbuf
  init_memcached_pkt-IsBusy p {n} s (o, inl h) five =
      let there : (s.memcached_pkt == null) ≡ false = ground (arith, template_there fit h) in
      rw there ((IsOrderly-fewer (omega arith) o, h), Steps-quiet (Moves-refl s.world) refl)
  init_memcached_pkt-IsBusy p {n} s (o, inr idle) five =
      go s.world.pool refl o.steady.pool o.steady.enough
    where
      go :
          (pool : List Ptr)
          → s.world.pool ≡ pool
          → All (λ q. t.pooled q ≡ true) pool
          → 1 + n ≤ length pool
          → IsBusy t n (init_memcached_pkt p s) × Steps t [] s (init_memcached_pkt p s)
      go [] e all enough = absurd (omega (arith, enough))
      go (q ∷ rest) e all enough =
          let b = record (s.world.heap p) { next = null } in
          let w1 : World = record s.world { pool = rest } in
          let moves : Moves d t s.world (set_mbuf (record s.world { pool = rest }) q b) [] =
            set_mbuf-Moves s.world rest q b
              (λ far. (let both : true ≡ false = sym all.0 ∙ far in cc))
              (λ far. (let both : true ≡ false = sym all.0 ∙ far in cc)) (λ _. five) in
          let s1 : State d = record s { world = set_mbuf w1 q b; memcached_pkt = q } in
          let ran : init_memcached_pkt p s ≡ s1 =
            simp (init_memcached_pkt, idle.no_template, copy_mbuf, e) in
          let busy : IsBusy t n s1 = (
            record {
              steady = record {
                listed = o.steady.listed;
                of_run = o.steady.of_run;
                id_small = o.steady.id_small;
                arp = o.steady.arp;
                pool = all.1;
                enough = omega (arith, enough);
              };
              group = o.group;
              wanted = o.wanted;
            },
            record {
              pooled = all.0;
              short_header = ap (λ c. c.contents 14 % 16) (heap-set_mbuf w1 q b) ∙ five;
            },
          ) in
          subst (λ u. IsBusy t n u × Steps t [] s u) (sym ran) (busy, Steps-quiet moves refl)

  -- A request of a client that strip_keys reads as these keys.
  pub app_client_in-Does :
      (laws : Laws d) (garbage : Bytes) (p : Ptr) (keys : List Bytes) (n : ℕ) (s : State d)
      (ap : AppPayload)
      → IsLive t (1 + length keys + n) s
      → IsHeld t s.world p (length keys)
      → init_rcv_app_payload (data_of s.world p) 34 ≡ some ap
      → strip_keys garbage (slice (data_of s.world p) ap.payload ap.msg_len) ≡ some keys
      → All t.Wanted keys
      → Does t (IsLive t n) keys s (app_client_in garbage p 34 s)
  unfolding app_client_in
  app_client_in-Does laws garbage p keys n s ap live held received stripped want =
      let (busy, st) =
        init_memcached_pkt-IsBusy p s (IsLive-fewer (omega arith) live) held.short_header in
      let s1 = init_memcached_pkt p s in
      let added = add_keys-Does laws fit p keys n s1 busy (IsHeld-Moves st.moves held) want in
      let send : State d → Option (State d) = λ s2.
        if ltb s2.outstanding_req min_outstanding_req
        then construct_pkt_and_send_to_server false s2
        else some s2 in
      let (s3, ran, done, st') = Does-then send added (λ s2 busy2. send_Does s2 busy2) in
      (s3, rw (app_client_in, received, stripped) ran, (done.0, inl done.1), Steps-trans st st')
    where
      send_Does :
          (s2 : State d)
          → IsBusy t n s2
          → Does t (IsBusy t n) [] s2 (
              if ltb s2.outstanding_req min_outstanding_req
              then construct_pkt_and_send_to_server false s2
              else some s2)
      send_Does s2 busy2 = elim (Bool-cases (ltb s2.outstanding_req min_outstanding_req)) [
        | inl few ↦ rw few (flush_all-Does fit busy2)
        | inr many ↦ rw many (s2, refl, busy2, Steps-quiet (Moves-refl s2.world) refl)
      ]

  flush-IsLive :
      {n : ℕ} (s : State d)
      → IsLive t n s
      → Does t (IsLive t n) [] s (construct_pkt_and_send_to_server false s)
  flush-IsLive s (o, inl h) = busy-IsLive (flush_all-Does fit (o, h))
  flush-IsLive s (o, inr idle) =
      (s, flush_none fit s idle.no_keys, (o, inr idle), Steps-quiet (Moves-refl s.world) refl)

  start_clock-IsLive :
      {n : ℕ} (s : State d)
      → IsLive t n s
      → IsLive t n (start_clock s) × Steps t [] s (start_clock s)
  unfolding start_clock
  start_clock-IsLive s live = elim (Bool-cases (s.last_send_clock == 0)) [
    | inl first ↦ rw first (
      clock-IsLive s (s.clock_at s.clock_reads) (suc s.clock_reads) s.outstanding_req s.keys_rcvd
          live,
      Steps-quiet (Moves-refl s.world) refl,
    )
    | inr later ↦ rw later (live, Steps-quiet (Moves-refl s.world) refl)
  ]

  -- Whatever the clock says, the backlog is sent or stays.
  pub refresh_backlog-Does :
      {n : ℕ} (s : State d) → IsLive t n s → Does t (IsLive t n) [] s (refresh_backlog s)
  unfolding refresh_backlog forget_requests
  refresh_backlog-Does {n} s live =
      let s1 = start_clock s in
      let (live1, st) = start_clock-IsLive s live in
      let s2 = record s1 { clock_reads = suc s1.clock_reads } in
      let now = s1.clock_at s1.clock_reads in
      let s3 = forget_requests s2 in
      let quiet2 : Steps t [] s s2 = Steps-trans st (Steps-quiet (Moves-refl s1.world) refl) in
      let quiet3 : Steps t [] s s3 = Steps-trans st (Steps-quiet (Moves-refl s1.world) refl) in
      elim (Bool-cases (length s1.ukey == 0)) [
        | inl none_left ↦ rw none_left (s1, refl, live1, st)
        | inr some_left ↦
            elim (Bool-cases (leb (timeout * clocks_per_sec) ((now - s1.last_send_clock) * 1000))) [
              | inl late ↦
                  let (s4, ran, done, st') = flush-IsLive s3 (
                    clock-IsLive s1 s1.last_send_clock (suc s1.clock_reads) 0 s3.keys_rcvd live1) in
                  rw (some_left, late) (s4, ran, done, Steps-trans quiet3 st')
              | inr early ↦
                  rw (some_left, early)
                    (
                      s2,
                      refl,
                      clock-IsLive s1 s1.last_send_clock (suc s1.clock_reads) s1.outstanding_req
                          s1.keys_rcvd live1,
                      quiet2,
                    )
            ]
      ]
