-- ===== src/Api/Run/Register.antt =====
-- A round of the loop of app_client_in in a run: the buffer of a key, and its registration.
use kernel_bypass_group_proj.Base.{
  ◌⊎◌, ℕ, ◌+◌, ◌%◌, ◌≤◌, ◌≡◌, ◌≢◌, refl, sym, ◌∙◌, ap, subst, inl, inr, List, [], ◌∷◌, ◌++◌, Option,
  some, none, true, false, Bool, arith, ◌==◌, leb, Bool-cases, Option-cases, ◌-◌, length, All,
}
use kernel_bypass_group_proj.Config.{map_entries}
use kernel_bypass_group_proj.Dpdk.{Dpdk, Laws, Ptr, null}
use kernel_bypass_group_proj.World.{World, Mbuf, free, data_of, set_mbuf}
use kernel_bypass_group_proj.World.Laws.{heap-set_mbuf, heap-set_mbuf_ne}
use kernel_bypass_group_proj.Api.State.{State, copy_mbuf, copy_small, small_data_room}
use kernel_bypass_group_proj.Api.Client.{current_buf, chain_to, register}
use kernel_bypass_group_proj.Api.Client.Same.{IsSame, SameAs, register-SameAs}
use kernel_bypass_group_proj.Api.Client.Queue.{
  make_room, make_room-absent, room_left, IsListed, register_new, add_old-IsListed,
}
use kernel_bypass_group_proj.Api.Run.{
  IsHeld, Setting, IsFit, Asks, still, release, Moves, IsSteady, IsSigned, IsOfRun, added, deleted,
}
use kernel_bypass_group_proj.Api.Run.Compose.{Moves-refl}

-- A buffer is written whose data stays, or which packets do not arrive in.
pub set_mbuf-Moves :
    {d : Dpdk} {t : Setting} (w : World) (rest : List Ptr) (q : Ptr) (b : Mbuf)
    → (t.pooled q ≡ false → b.contents ≡ data_of w q)
    → (t.pooled q ≡ false → b.pkt_len ≡ (w.heap q).pkt_len)
    → (data_of w q 14 % 16 ≡ 5 → b.contents 14 % 16 ≡ 5)
    → Moves d t w (set_mbuf (record w { pool = rest }) q b) []
set_mbuf-Moves {d} {t} w rest q b same same_len five =
    let w1 : World = record w { pool = rest } in
    let w' = set_mbuf w1 q b in
    let at : data_of w' q ≡ b.contents = ap (λ c. c.contents) (heap-set_mbuf w1 q b) in
    record {
      asks = still;
      arp = refl;
      arrived = λ a far. elim (Bool-cases (a == q)) [
        | inl is ↦
            (let e : a ≡ q = ground arith in
              ap (data_of w') e ∙ at ∙ same (ap t.pooled (sym e) ∙ far) ∙ ap (data_of w) (sym e))
        | inr other ↦ ap (λ c. c.contents) (heap-set_mbuf_ne w1 q a b (ground arith))
      ];
      lengths = λ a far. elim (Bool-cases (a == q)) [
        | inl is ↦
            (let e : a ≡ q = ground arith in
              ap (λ c. (w'.heap c).pkt_len) e
              ∙ ap (λ c. c.pkt_len) (heap-set_mbuf w1 q b)
              ∙ same_len (ap t.pooled (sym e) ∙ far)
              ∙ ap (λ c. (w.heap c).pkt_len) (sym e))
        | inr other ↦ ap (λ c. c.pkt_len) (heap-set_mbuf_ne w1 q a b (ground arith))
      ];
      short = λ a was. elim (Bool-cases (a == q)) [
        | inl is ↦
            (let e : a ≡ q = ground arith in
              let was_q : data_of w q 14 % 16 ≡ 5 = ap (λ c. data_of w c 14 % 16) (sym e) ∙ was in
              ap (λ c. data_of w' c 14 % 16) e ∙ ap (λ m. m 14 % 16) at ∙ five was_q)
        | inr other ↦ ap (λ c. c.contents 14 % 16) (heap-set_mbuf_ne w1 q a b (ground arith)) ∙ was
      ];
    }

IsSame-Moves :
    {d : Dpdk} {t : Setting} {s s' : State d} → IsSame s s' → Moves d t s.world s'.world []
IsSame-Moves {d} {t} {s} {s'} same = record {
  asks = go same.only_free;
  arp = same.same_arp;
  arrived = λ q far. ap (λ h. (h q).contents) same.same_heap;
  lengths = λ q far. ap (λ h. (h q).pkt_len) same.same_heap;
  short = λ q was. ap (λ h. (h q).contents 14 % 16) same.same_heap ∙ was;
}
  where
    go :
        (s'.world.trace ≡ s.world.trace)
          ⊎ ((b : Ptr) × (s'.world.trace ≡ s.world.trace ++ free b ∷ []))
        → Asks d t.mac s.world.trace s'.world.trace []
    go (inl e) = rw e still
    go (inr (b, e)) = release b still e

-- how many copies a key takes
abbrev pub copies_of : Bool → ℕ
copies_of true = 0
copies_of false = 1

module _ {d : Dpdk} {t : Setting} (laws : Laws d) (fit : IsFit d t) where
  -- The buffer that is put into the table is not NULL.
  pub current_buf-Moves :
      (is_first : Bool) (p : Ptr) {n : ℕ} (s : State d)
      → IsHeld t s.world p (1 + copies_of is_first)
      → IsSteady t (copies_of is_first + n) s
      → (curr : Ptr) × (w : World) × (current_buf is_first p s ≡ (curr, record s { world = w }))
        × (curr ≢ null)
        × Moves d t s.world w []
        × All (λ q. t.pooled q ≡ true) w.pool
        × (n ≤ length w.pool)
  unfolding current_buf copy_mbuf copy_small
  current_buf-Moves true p {n} s held o =
      (p, s.world, refl, held.there, Moves-refl s.world, o.pool, omega (arith, o.enough))
  current_buf-Moves false p {n} s held o = go s.world.pool refl o.pool o.enough
    where
      one_buffer : leb (s.world.heap p).pkt_len small_data_room ≡ true
      one_buffer = ground (arith, held.fits (omega arith))

      go :
          (pool : List Ptr)
          → s.world.pool ≡ pool
          → All (λ q. t.pooled q ≡ true) pool
          → 1 + n ≤ length pool
          → (curr : Ptr) × (w : World) × (current_buf false p s ≡ (curr, record s { world = w }))
            × (curr ≢ null)
            × Moves d t s.world w []
            × All (λ q. t.pooled q ≡ true) w.pool
            × (n ≤ length w.pool)
      go [] e all enough = absurd (omega (arith, enough))
      go (q ∷ rest) e all enough =
          let b = record (s.world.heap p) { next = null } in
          (
            q,
            set_mbuf (record s.world { pool = rest }) q b,
            rw (current_buf, copy_small, one_buffer, copy_mbuf, e),
            λ none_left.
                (let both : true ≡ false = sym all.0 ∙ ap t.pooled none_left ∙ fit.null_apart in
                  cc),
            set_mbuf-Moves s.world rest q b
                (λ far. (let both : true ≡ false = sym all.0 ∙ far in cc))
                (λ far. (let both : true ≡ false = sym all.0 ∙ far in cc)) (λ _. held.short_header),
            all.1,
            omega (arith, enough),
          )

  -- What a registration of `s.key_hold` brings about.
  pub record IsRegistered (s : State d) (curr : Ptr) (s' : State d) : Type 0 where
    pub same_key : s'.key_hold ≡ s.key_hold
    pub same_ukey : s'.ukey ≡ s.ukey
    pub same_size : s'.total_ukey_size ≡ s.total_ukey_size
    pub same_id : s'.request_id ≡ s.request_id
    pub same_template : s'.memcached_pkt ≡ s.memcached_pkt
    pub same_pool : s'.world.pool ≡ s.world.pool
    pub moves : Moves d t s.world s'.world []
    pub position : ℕ
    pub found : d.lookup_data s'.client_pkts s.key_hold ≡ some (position, curr)
    pub listed : IsListed d s'.client_pkts s'.lru_queue s'.lru_ptr
    pub of_run : IsOfRun d t s'.client_pkts

  make_room-IsOfRun : (s : State d) → IsOfRun d t s.client_pkts → IsOfRun d t (make_room s)
  unfolding make_room
  make_room-IsOfRun s of_run =
      elim (Option-cases (d.lookup_data s.client_pkts (s.lru_queue s.lru_ptr))) [
        | inl absent ↦ rw (make_room, absent) of_run
        | inr (b, found) ↦ rw (make_room, found) (deleted (s.lru_queue s.lru_ptr) of_run)
      ]

  pub register-IsRegistered :
      (s : State d) (curr : Ptr) (o : Option (ℕ × Ptr))
      → IsListed d s.client_pkts s.lru_queue s.lru_ptr
      → IsOfRun d t s.client_pkts
      → IsSigned t s.key_hold
      → curr ≢ null
      → d.lookup_data s.client_pkts s.key_hold ≡ o
      → (s' : State d) × (register o curr s ≡ some s') × IsRegistered s curr s'
  register-IsRegistered s curr none v of_run signed there e =
      let (s', ran, table, stored, _, _, listed) = register_new laws s v curr e in
      let left = make_room-IsOfRun s of_run in
      let (i, _, found) = stored (
        fit.place (make_room s) s.key_hold curr _ (map_entries - 1) left signed
          (make_room-absent laws s v e) (room_left laws s v) (omega arith)) in
      let same : SameAs s (some s') = subst (SameAs s) ran (register-SameAs s curr) in
      (
        s',
        ran,
        record {
          same_key = same.same_key;
          same_ukey = same.same_ukey;
          same_size = same.same_size;
          same_id = same.same_id;
          same_template = same.same_template;
          same_pool = same.same_pool;
          moves = IsSame-Moves same;
          position = i;
          found = found;
          listed = listed;
          of_run = subst (IsOfRun d t) (sym table) (added s.key_hold curr left signed);
        },
      )
  register-IsRegistered s curr (some (i, first)) v of_run signed there e =
      let b = record (s.world.heap curr) { next = first } in
      let not_null : (curr == null) ≡ false = ground arith in
      (
        record s {
          world = set_mbuf s.world curr b;
          client_pkts = d.add_key_data s.client_pkts s.key_hold curr;
        },
        unfold register in unfold chain_to in rw not_null refl,
        record {
          same_key = refl;
          same_ukey = refl;
          same_size = refl;
          same_id = refl;
          same_template = refl;
          same_pool = refl;
          moves =
              set_mbuf-Moves s.world s.world.pool curr b (λ far. refl) (λ far. refl) (λ five. five);
          position = i;
          found = laws.lookup-add_old s.client_pkts s.key_hold curr first i e;
          listed = add_old-IsListed laws s v curr first i e;
          of_run = added s.key_hold curr of_run signed;
        },
      )
