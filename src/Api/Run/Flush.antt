-- ===== src/Api/Run/Flush.antt =====
-- construct_pkt_and_send_to_server in a run: it does not fail, and no key is lost.
use kernel_bypass_group_proj.Base.{
  ℕ, ◌≤◌, ◌≡◌, ◌≢◌, refl, sym, ◌∙◌, ap, inl, inr, Bytes, List, [], ◌∷◌, ◌++◌, Option, some, Bool,
  true, false, ◌||◌, arith, ◌==◌, Bool-cases, append-nil, All,
}
use kernel_bypass_group_proj.Dpdk.{Dpdk, null}
use kernel_bypass_group_proj.World.{World, data_of}
use kernel_bypass_group_proj.Api.State.{State}
use kernel_bypass_group_proj.Api.Keys.Size.{packed}
use kernel_bypass_group_proj.Api.Group.{has_key}
use kernel_bypass_group_proj.Api.Group.Bounds.{IsGroup}
use kernel_bypass_group_proj.Api.Flush.{kept_size, construct_pkt_and_send_to_server}
use kernel_bypass_group_proj.Api.Flush.Sends.{
  IsReady, requested, Asked, construct_pkt_and_send_to_server_all,
  construct_pkt_and_send_to_server_full,
}
use kernel_bypass_group_proj.Api.Run.{
  Setting, IsFit, still, refer, ask, Moves, IsSteady, HasTemplate, IsBusy, Does,
}
use kernel_bypass_group_proj.Api.Run.Compose.{Moves-refl, Steps-quiet}

module _ {d : Dpdk} {t : Setting} (fit : IsFit d t) where
  pub template_there : {s : State d} → HasTemplate t s → s.memcached_pkt ≢ null
  template_there {s} h e =
      let both : true ≡ false = sym h.pooled ∙ ap t.pooled e ∙ fit.null_apart in cc

  busy-IsReady : {n : ℕ} {s : State d} → IsSteady t n s → HasTemplate t s → IsReady s t.mac
  busy-IsReady {n} {s} o h = record {
    known = rw o.arp fit.known;
    target_small = fit.target_small;
    local_small = fit.local_small;
    template = template_there h;
    short_header = h.short_header;
    id_small = o.id_small;
  }

  Asked-Moves :
      {s : State d} {sent : List Bytes} {w : World}
      → HasTemplate t s
      → Asked s t.mac sent w
      → Moves d t s.world w sent
  Asked-Moves {s} {sent} {w} h asked =
      let p = s.memcached_pkt in
      let x = asked.transmitted in
      record {
        asks =
            ask p asked.frame s.request_id sent (refer p 1 still refl) x.trace refl asked.datagram
              asked.request;
        arp = x.arp;
        arrived = λ q far.
            ap (λ b. b.contents)
              (x.others q (λ e.
                let both : false ≡ true = sym far ∙ ap t.pooled e ∙ h.pooled in absurd_bool both));
        lengths = λ q far.
            ap (λ b. b.pkt_len)
              (x.others q (λ e.
                let both : false ≡ true = sym far ∙ ap t.pooled e ∙ h.pooled in absurd_bool both));
        short = λ q was. elim (Bool-cases (q == p)) [
          | inl same ↦
              let e : q ≡ p = ground arith in
              let at : data_of w q 14 ≡ 0x45 =
                ap (λ a. data_of w a 14) e ∙ ap (λ m. m 14) x.filled ∙ asked.datagram.version_ihl in
              omega (arith, at)
          | inr other ↦
              let ne : q ≢ p = ground arith in
              let at : data_of w q 14 ≡ data_of s.world q 14 =
                ap (λ b. b.contents 14) (x.others q ne) in
              omega (arith, at, was)
        ];
      }
    where
      absurd_bool : false ≡ true → ⊥
      absurd_bool e = cc

  requested-Does :
      {n : ℕ} {s : State d} (sent kept : List Bytes) {w : World} {o : Option (State d)}
      → IsSteady t n s
      → HasTemplate t s
      → IsGroup kept (kept_size kept)
      → All t.Wanted kept
      → s.ukey ≡ sent ++ kept
      → o ≡ some (requested s w sent kept)
      → Asked s t.mac sent w
      → Does t (IsBusy t n) [] s o
  requested-Does {n} {s} sent kept {w} o h group wanted e ran asked =
      let moves = Asked-Moves h asked in
      (
        requested s w sent kept,
        ran,
        (
          record {
            steady = record {
              listed = o.listed;
              of_run = o.of_run;
              id_small = omega arith;
              arp = moves.arp ∙ o.arp;
              pool = rw asked.transmitted.pool o.pool;
              enough = rw asked.transmitted.pool o.enough;
            };
            group = group;
            wanted = wanted;
          },
          record { pooled = h.pooled; short_header = moves.short s.memcached_pkt h.short_header },
        ),
        record {
          sent = sent;
          moves = moves;
          same_keys = λ j. ap (has_key j) (sym e) ∙ unfold has_key in or_false (has_key j s.ukey);
        },
      )
    where
      or_false : (b : Bool) → b ≡ (b || false)
      or_false b = ground arith

  nil-IsGroup : IsGroup [] (kept_size [])
  unfolding kept_size
  nil-IsGroup = record { distinct = tt; keys = tt; size_exact = refl; room = omega arith }

  -- nothing to send
  pub flush_none : (s : State d) → s.ukey ≡ [] → construct_pkt_and_send_to_server false s ≡ some s
  unfolding construct_pkt_and_send_to_server
  flush_none s e = rw (construct_pkt_and_send_to_server, e)

  pub flush_full-Does :
      {n : ℕ} {s : State d} (ks : List Bytes) (k : Bytes)
      → IsSteady t n s
      → HasTemplate t s
      → IsGroup (k ∷ []) (kept_size (k ∷ []))
      → t.Wanted k
      → s.ukey ≡ ks ++ k ∷ []
      → packed ks ≤ 1457
      → Does t (IsBusy t n) [] s (construct_pkt_and_send_to_server true s)
  flush_full-Does ks k o h one want e fits =
      let (w, ran, asked) =
        construct_pkt_and_send_to_server_full (busy-IsReady o h) ks k e (omega (arith, fits)) in
      requested-Does ks (k ∷ []) o h one (want, tt) e ran asked

  pub flush_all-Does :
      {n : ℕ} {s : State d}
      → IsBusy t n s
      → Does t (IsBusy t n) [] s (construct_pkt_and_send_to_server false s)
  flush_all-Does {n} {s} (o, h) = go s.ukey refl
    where
      go :
          (ks : List Bytes)
          → s.ukey ≡ ks
          → Does t (IsBusy t n) [] s (construct_pkt_and_send_to_server false s)
      go [] e = (s, flush_none s e, (o, h), Steps-quiet (Moves-refl s.world) refl)
      go (k ∷ ks) e =
          let ne : s.ukey ≢ [] = λ none_left. (let both : k ∷ ks ≡ [] = sym e ∙ none_left in cc) in
          let not_1458 = fit.no_overrun s.ukey o.wanted o.group.distinct in
          let (w, ran, asked) =
            construct_pkt_and_send_to_server_all (busy-IsReady o.steady h) ne
              (omega (arith, o.group.room, not_1458)) in
          requested-Does s.ukey [] o.steady h nil-IsGroup tt (sym (append-nil s.ukey)) ran asked
