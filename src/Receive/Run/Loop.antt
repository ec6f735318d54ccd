-- ===== src/Receive/Run/Loop.antt =====
-- lcore_main over the bursts of clients, and from the start of the program on.
use kernel_bypass_group_proj.Base.{
  ℕ, ◌+◌, ◌%◌, ◌≡◌, ◌≢◌, ◌⊎◌, refl, sym, ◌∙◌, ap, inl, inr, List, [], ◌∷◌, some, Bool, true, false,
  arith, All, ◌||◌,
}
use kernel_bypass_group_proj.Dpdk.{Dpdk, Laws, Ptr}
use kernel_bypass_group_proj.World.{Mbuf, set_mbuf}
use kernel_bypass_group_proj.World.Laws.{heap-set_mbuf, heap-set_mbuf_ne}
use kernel_bypass_group_proj.Api.State.{State, ◌>>=◌}
use kernel_bypass_group_proj.Api.Group.{has_key}
use kernel_bypass_group_proj.Api.Run.{Setting, IsFit, still, Serves, HasTemplate, IsIdle, IsLive}
use kernel_bypass_group_proj.Api.Run.Compose.{Serves-trans, Steps-Serves}
use kernel_bypass_group_proj.Api.Run.Client.{IsLive-fewer, refresh_backlog-Does}
use kernel_bypass_group_proj.Receive.{Env, arrive_all, take_burst, poll, lcore_main}
use kernel_bypass_group_proj.Receive.Run.{
  Request, burst_of, bursts_of, keys_of, all_keys, copies_for, all_copies, IsBurst, AreHeld,
  take_burst-Does,
}

module _ {d : Dpdk} {t : Setting} (laws : Laws d) (fit : IsFit d t) (env : Env) where
  arrived-IsLive :
      (p : Ptr) (b : Mbuf) {n : ℕ} (s : State d)
      → t.pooled p ≡ false
      → IsLive t n s
      → IsLive t n (record s { world = set_mbuf s.world p b })
  arrived-IsLive p b s far (o, tmpl) = (
    record {
      steady = record {
        listed = o.steady.listed;
        of_run = o.steady.of_run;
        id_small = o.steady.id_small;
        arp = o.steady.arp;
        pool = o.steady.pool;
        enough = o.steady.enough;
      };
      group = o.group;
      wanted = o.wanted;
    },
    go tmpl,
  )
    where
      go :
          HasTemplate t s ⊎ IsIdle s
          → HasTemplate t (record s { world = set_mbuf s.world p b })
            ⊎ IsIdle (record s { world = set_mbuf s.world p b })
      go (inr i) = inr (record { no_template = i.no_template; no_keys = i.no_keys })
      go (inl h) =
          let apart : s.memcached_pkt ≢ p =
            λ e. (let both : true ≡ false = sym h.pooled ∙ ap t.pooled e ∙ far in cc) in
          inl (record {
            pooled = h.pooled;
            short_header =
                ap (λ c. c.contents 14 % 16) (heap-set_mbuf_ne s.world p s.memcached_pkt b apart)
                ∙ h.short_header;
          })

  arrive_all-IsLive :
      (rs : List Request) {n : ℕ} (s : State d)
      → IsBurst d t env rs
      → IsLive t n s
      → IsLive t n (arrive_all env (burst_of rs) s)
  arrive_all-IsLive [] s is live = live
  arrive_all-IsLive (r ∷ rs) s is live =
      arrive_all-IsLive rs (record s { world = set_mbuf s.world r.buffer r.packet }) is.5
        (arrived-IsLive r.buffer r.packet s is.2 live)

  arrive_all-other :
      (rs : List Request) (p : Ptr) (s : State d)
      → All (λ q. q.buffer ≢ p) rs
      → (arrive_all env (burst_of rs) s).world.heap p ≡ s.world.heap p
  arrive_all-other [] p s ne = refl
  arrive_all-other (r ∷ rs) p s ne =
      arrive_all-other rs p (record s { world = set_mbuf s.world r.buffer r.packet }) ne.1
      ∙ heap-set_mbuf_ne s.world r.buffer p r.packet (λ e. ne.0 (sym e))

  arrive_all-held :
      (rs : List Request) (s : State d)
      → IsBurst d t env rs
      → AreHeld laws fit env (arrive_all env (burst_of rs) s).world rs
  arrive_all-held [] s is = tt
  arrive_all-held (r ∷ rs) s is =
      let s1 = record s { world = set_mbuf s.world r.buffer r.packet } in
      let at : (arrive_all env (burst_of rs) s1).world.heap r.buffer ≡ r.packet =
        arrive_all-other rs r.buffer s1 is.4 ∙ heap-set_mbuf s.world r.buffer r.packet in
      (ap (λ c. c.contents) at, ap (λ c. c.pkt_len) at, arrive_all-held rs s1 is.5)

  -- A packet that arrives is no event, and does not change the group.
  arrive_all-Serves :
      (rs : List Request) (s : State d) → Serves t [] s (arrive_all env (burst_of rs) s)
  arrive_all-Serves [] s = record {
    sent = [];
    asks = still;
    same_keys = λ j. unfold has_key in or_false (has_key j s.ukey);
  }
    where
      or_false : (b : Bool) → b ≡ (b || false)
      or_false b = ground arith
  arrive_all-Serves (r ∷ rs) s =
      let rest = arrive_all-Serves rs (record s { world = set_mbuf s.world r.buffer r.packet }) in
      record { sent = rest.sent; asks = rest.asks; same_keys = rest.same_keys }

  poll-Serves :
      (rs : List Request) (n : ℕ) (s : State d)
      → IsLive t (copies_for rs + n) s
      → IsBurst d t env rs
      → (s' : State d) × (poll env (burst_of rs) s ≡ some s')
        × IsLive t n s'
        × Serves t (keys_of rs) s s'
  unfolding poll
  poll-Serves rs n s live is =
      let (s1, ran1, live1, st1) = refresh_backlog-Does fit s live in
      let s2 = arrive_all env (burst_of rs) s1 in
      let (s3, ran3, live3, st3) =
        take_burst-Does laws fit env rs n s2 (arrive_all-IsLive rs s1 is live1) is
          (arrive_all-held rs s1 is) in
      (
        s3,
        ap (λ o. o >>= (λ u. take_burst env (burst_of rs) (arrive_all env (burst_of rs) u))) ran1
            ∙ ran3,
        live3,
        Serves-trans (Steps-Serves st1) (Serves-trans (arrive_all-Serves rs s1) (Steps-Serves st3)),
      )

  pub lcore_main-Serves :
      (visits : List (List Request)) (n : ℕ) (s : State d)
      → IsLive t (all_copies visits + n) s
      → All (IsBurst d t env) visits
      → (s' : State d) × (lcore_main env (bursts_of visits) s ≡ some s')
        × IsLive t n s'
        × Serves t (all_keys visits) s s'
  unfolding lcore_main
  lcore_main-Serves [] n s live is =
      (s, refl, IsLive-fewer (omega arith) live, arrive_all-Serves [] s)
  lcore_main-Serves (v ∷ vs) n s live is =
      let (s1, ran1, live1, sv1) =
        poll-Serves v (all_copies vs + n) s (IsLive-fewer (omega arith) live) is.0 in
      let (s2, ran2, live2, sv2) = lcore_main-Serves vs n s1 live1 is.1 in
      (s2, ap (λ o. o >>= lcore_main env (bursts_of vs)) ran1 ∙ ran2, live2, Serves-trans sv1 sv2)
