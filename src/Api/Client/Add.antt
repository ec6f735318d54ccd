-- ===== src/Api/Client/Add.antt =====
-- One round of the loop of app_client_in, for a key that is not in the table: what add_key does to
-- the group, to the table and, where the group overflows, on the wire.
use kernel_bypass_group_proj.Base.{
  ◌⊎◌, ℕ, ◌+◌, ◌-◌, ◌%◌, ◌≤◌, ◌<◌, ◌≡◌, ◌≢◌, refl, sym, ◌∙◌, ap, subst, inl, inr, Bytes, List, [],
  ◌∷◌, ◌++◌, some, none, true, false, Bool, arith, leb, bytes_eq, bytes_eq_sound, ==_refl,
  Bool-cases, if◌then◌else◌, length, length-append, All,
}
use kernel_bypass_group_proj.Config.{
  map_entries, max_key_length, max_req_id, max_payload_len, gets_len,
}
use kernel_bypass_group_proj.Mem.{Mem}
use kernel_bypass_group_proj.Dpdk.{Dpdk, Laws, Ptr}
use kernel_bypass_group_proj.World.{World, free}
use kernel_bypass_group_proj.Api.State.{State, update}
use kernel_bypass_group_proj.Api.Keys.Size.{packed}
use kernel_bypass_group_proj.Api.Signature.{signature, signature_injective, print_signature-some}
use kernel_bypass_group_proj.Api.Group.{has_key}
use kernel_bypass_group_proj.Api.Group.Pigeons.{Distinct}
use kernel_bypass_group_proj.Api.Group.Bounds.{
  IsByteKey, IsGroup, length-IsGroup, insert_ukey_group_lem,
}
use kernel_bypass_group_proj.Api.Flush.{kept_size, construct_pkt_and_send_to_server}
use kernel_bypass_group_proj.Api.Flush.Sends.{
  IsReady, requested, Asked, construct_pkt_and_send_to_server_full,
}
use kernel_bypass_group_proj.Api.Client.{current_buf, reset_count, is_full, add_key}
use kernel_bypass_group_proj.Api.Client.Same.{SameAs, register-SameAs, reset_count-some}
use kernel_bypass_group_proj.Api.Client.Queue.{
  IsListed, HasPlace, make_room, bytes_ne, register_new,
}

is_full-leb :
    (size len bytes : ℕ)
    → size + len ≡ bytes
    → len ≤ map_entries
    → 1458 < bytes
    → leb (max_payload_len - gets_len - len + 1) size ≡ true
is_full-leb size len bytes e few over = ground (arith, e, few, over)

module _ {d : Dpdk} (laws : Laws d) (s : State d) (key : Bytes) (p : Ptr)
    (group : IsGroup s.ukey s.total_ukey_size) (is : IsByteKey key)
    (listed : IsListed d s.client_pkts s.lru_queue s.lru_ptr)
    (fits : length (signature s.request_id key) < max_key_length)
    (absent : d.lookup_data s.client_pkts (signature s.request_id key) ≡ none)
    (place : HasPlace s (signature s.request_id key) p) where
  abbrev pub group_with : List Bytes
  group_with = if has_key key s.ukey then s.ukey else s.ukey ++ key ∷ []

  -- The state before the group is looked at again.
  pub record IsAdded (s' : State d) : Type 0 where
    pub ukey : s'.ukey ≡ group_with
    pub size : s'.total_ukey_size + length group_with ≡ packed group_with
    pub distinct : Distinct group_with
    pub keys : All IsByteKey group_with
    pub id : s'.request_id ≡ s.request_id
    pub outstanding : s'.outstanding_req ≡ s.outstanding_req
    pub template : s'.memcached_pkt ≡ s.memcached_pkt
    pub heap : s'.world.heap ≡ s.world.heap
    pub arp : s'.world.arp ≡ s.world.arp
    pub only_free :
        (s'.world.trace ≡ s.world.trace)
        ⊎ ((b : Ptr) × (s'.world.trace ≡ s.world.trace ++ free b ∷ []))
    pub position : ℕ
    pub position_in : position < map_entries
    pub found : d.lookup_data s'.client_pkts (signature s.request_id key) ≡ some (position, p)
    pub others :
        (j : Bytes)
        → j ≢ signature s.request_id key
        → d.lookup_data s.client_pkts j ≡ none
        → d.lookup_data s'.client_pkts j ≡ none
    pub counted : s'.pkt_counts position ≡ 1
    pub still_listed : IsListed d s'.client_pkts s'.lru_queue s'.lru_ptr

  still_absent :
      (t : d.Table) (j : Bytes)
      → j ≢ signature s.request_id key
      → d.lookup_data s.client_pkts j ≡ none
      → ((k : Bytes)
          → k ≢ signature s.request_id key
          → k ≢ s.lru_queue s.lru_ptr
          → d.lookup_data t k ≡ d.lookup_data s.client_pkts k)
      → (signature s.request_id key ≢ s.lru_queue s.lru_ptr
          → d.lookup_data t (s.lru_queue s.lru_ptr) ≡ none)
      → d.lookup_data t j ≡ none
  still_absent t j ne before others gone = elim (Bool-cases (bytes_eq j (s.lru_queue s.lru_ptr))) [
    | inl same ↦
        let e = bytes_eq_sound j (s.lru_queue s.lru_ptr) same in
        ap (d.lookup_data t) e ∙ gone (λ e'. ne (e ∙ sym e'))
    | inr differs ↦ others j ne (λ e. bytes_ne j (s.lru_queue s.lru_ptr) differs e) ∙ before
  ]

  added :
      (s' : State d) × (add_key true p key s
        ≡ (if is_full s' then construct_pkt_and_send_to_server true s' else some s'))
      × IsAdded s'
  unfolding add_key current_buf
  added =
      let sig = signature s.request_id key in
      let (ks, n, ran1, dist, all, size, member, ks_ok) = insert_ukey_group_lem s key group is in
      let s2 = record s { ukey = ks; total_ukey_size = n; key_hold = sig } in
      let (s3, ran2, _, stored, others, gone, listed3) = register_new laws s2 listed p absent in
      let (i, lt, found) = stored (unfold make_room in place) in
      let same : SameAs s2 (some s3) = subst (SameAs s2) ran2 (register-SameAs s2 p) in
      let s4 = record s3 { pkt_counts = update s3.pkt_counts i 1 } in
      let counted : reset_count s3 ≡ some s4 = reset_count-some s3 sig i p same.same_key found in
      (
        s4,
        rw (ran1, print_signature-some s.request_id key fits, absent, ran2, counted),
        record {
          ukey = same.same_ukey ∙ ks_ok;
          size =
              subst (λ (us : List Bytes). s3.total_ukey_size + length us ≡ packed us) ks_ok
                (rw same.same_size size);
          distinct = subst Distinct ks_ok dist;
          keys = subst (All IsByteKey) ks_ok all;
          id = same.same_id;
          outstanding = same.same_outstanding;
          template = same.same_template;
          heap = same.same_heap;
          arp = same.same_arp;
          only_free = same.only_free;
          position = i;
          position_in = lt;
          found = found;
          others = λ j ne none_before. still_absent s3.client_pkts j ne none_before others gone;
          counted = rw (==_refl i);
          still_listed = listed3;
        },
      )

  -- One round of the loop of app_client_in for the first key of a packet: for a hash table with the
  -- laws of rte_hash whose keys all stand in LRU_queue, a valid group, and a key of bytes that takes
  -- it to at most 1458 bytes with its separators, whose signature fits its array, is not in the
  -- table and has a place there. No buffer is written and nothing transmitted, and at most one buffer is released; the
  -- group is valid again and has the key, the key is found in the table with the packet, at a
  -- position within pkt_counts whose count is 1, and all keys of the table still stand in LRU_queue.
  pub add_key_keeps :
      packed group_with ≤ 1458
      → (s' : State d) × (add_key true p key s ≡ some s')
        × IsAdded s'
        × IsGroup s'.ukey s'.total_ukey_size
  add_key_keeps fits_group =
      let (s', ran, a) = added in
      let room : is_full s' ≡ false = unfold is_full in rw a.ukey (ground (arith, a.size)) in
      (
        s',
        ran
            ∙ ap (λ (b : Bool). if b then construct_pkt_and_send_to_server true s' else some s')
                room,
        a,
        rw a.ukey (record {
          distinct = a.distinct;
          keys = a.keys;
          size_exact = a.size;
          room = fits_group;
        }),
      )

  abbrev pub next_id : ℕ
  next_id = (s.request_id + 1) % max_req_id

  pub IsAdded-IsReady : {mac : Mem} (s' : State d) → IsReady s mac → IsAdded s' → IsReady s' mac
  IsAdded-IsReady s' ready a = record {
    known = rw a.arp ready.known;
    target_small = ready.target_small;
    local_small = ready.local_small;
    template = rw a.template ready.template;
    short_header = rw (a.heap, a.template) ready.short_header;
    id_small = rw a.id ready.id_small;
  }

  too_many : 1458 < packed group_with → has_key key s.ukey ≡ false
  too_many over = elim (Bool-cases (has_key key s.ukey)) [
    | inl old ↦
        let same : group_with ≡ s.ukey = rw old in
        absurd (omega (arith, ap packed same, group.room, over))
    | inr new ↦ new
  ]

  one_key : IsGroup (key ∷ []) (kept_size (key ∷ []))
  unfolding has_key kept_size
  one_key = record {
    distinct = (refl, tt);
    keys = (is, tt);
    size_exact = omega (arith, is.0.short);
    room = omega (arith, is.0.short);
  }

  another :
      {n : ℕ}
      → n ≡ next_id
      → s.request_id < max_req_id
      → signature n key ≢ signature s.request_id key
  another {n} e small same = omega (
    arith,
    (signature_injective n s.request_id key key (omega (arith, e)) (omega (arith, small)) same).0,
    e,
    small,
  )

  -- One round of the loop of app_client_in for the first key of a packet: for a hash table with the
  -- laws of rte_hash whose keys all stand in LRU_queue, a valid group of at most 1457 bytes with its
  -- separators, a key of bytes that takes it over 1458, whose signature fits its array, is not in
  -- the table and has a place there, and a server that can be reached. The key is registered under the current request id,
  -- at most one buffer is released, then one request is sent for the old keys and nothing else, and
  -- the new key alone makes up the next, valid group. If its signature under the next request id was
  -- not in the table, it is not there afterwards either: under the id with which the key will be
  -- sent, nobody waits for it.
  pub add_key_overflows :
      {mac : Mem}
      → 1458 < packed group_with
      → packed s.ukey ≤ 1457
      → IsReady s mac
      → d.lookup_data s.client_pkts (signature next_id key) ≡ none
      → (s1 : State d) × (w : World) × (add_key true p key s
          ≡ some (requested s1 w s.ukey (key ∷ [])))
        × IsAdded s1
        × Asked s1 mac s.ukey w
        × IsGroup (key ∷ []) (kept_size (key ∷ []))
        × (d.lookup_data s1.client_pkts
              (signature (requested s1 w s.ukey (key ∷ [])).request_id key)
            ≡ none)
  add_key_overflows over room ready absent_next =
      let (s1, ran, a) = added in
      let new = too_many over in
      let grown : group_with ≡ s.ukey ++ key ∷ [] = rw new in
      let snoc = a.ukey ∙ grown in
      let few : length group_with ≤ map_entries =
        rw grown (omega (arith, length-append s.ukey (key ∷ []), length-IsGroup group)) in
      let full : is_full s1 ≡ true =
        unfold is_full in rw a.ukey (is_full-leb _ _ _ a.size few over) in
      let (w, sent, asked) =
        construct_pkt_and_send_to_server_full (IsAdded-IsReady s1 ready a) s.ukey key snoc
          (omega (arith, room)) in
      (
        s1,
        w,
        ran
            ∙ ap (λ (b : Bool). if b then construct_pkt_and_send_to_server true s1 else some s1)
                full
            ∙ sent,
        a,
        asked,
        one_key,
        rw a.id (a.others (signature next_id key) (another refl ready.id_small) absent_next),
      )
