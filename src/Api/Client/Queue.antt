-- ===== src/Api/Client/Queue.antt =====
-- The hash table of waiting clients and LRU_queue, the circular list of what may be evicted from it.
use kernel_bypass_group_proj.Base.{
  ℕ, suc, ◌+◌, ◌-◌, ◌%◌, ◌<◌, ◌≡◌, ◌≢◌, refl, sym, ◌∙◌, ap, subst, inl, inr, Bytes, some, none,
  true, false, arith, ◌==◌, ==_refl, ltb, bytes_eq, bytes_eq_sound, bytes_eq_refl, Bool-cases,
  Option-cases, if◌then◌else◌,
}
use kernel_bypass_group_proj.Config.{map_entries}
use kernel_bypass_group_proj.Dpdk.{Dpdk, Laws, Ptr, null}
use kernel_bypass_group_proj.World.{Mbuf, set_mbuf, free}
use kernel_bypass_group_proj.World.Laws.{heap-set_mbuf}
use kernel_bypass_group_proj.Api.State.{State, update, log_event}
use kernel_bypass_group_proj.Api.Client.{evict, enqueue, chain_to, register}

-- Every key of the table stands in a slot of the queue.
pub record IsListed (d : Dpdk) (t : d.Table) (queue : ℕ → Bytes) (ptr : ℕ) : Type 0 where
  pub listed : (j : Bytes) → d.lookup_data t j ≢ none → (i : ℕ) × (i < map_entries) × (queue i ≡ j)
  pub ptr_in : ptr < map_entries

-- the table once the key in the oldest slot of the queue has given way
unfoldable pub make_room : {d : Dpdk} → State d → d.Table
make_room {d} s = elim (d.lookup_data s.client_pkts (s.lru_queue s.lru_ptr)) [
  | none ↦ s.client_pkts
  | some _ ↦ d.del_key s.client_pkts (s.lru_queue s.lru_ptr)
]

-- rte_hash_add_key_data does not fail for this new key: it is found afterwards.
abbrev pub HasPlace : {d : Dpdk} → State d → Bytes → Ptr → Type 0
HasPlace {d} s k p = d.lookup_data (d.add_key_data (make_room s) k p) k ≢ none

pub bytes_ne : (a b : Bytes) → bytes_eq a b ≡ false → a ≢ b
bytes_ne a b h e = let same : bytes_eq a b ≡ true = rw e (bytes_eq_refl b) in cc

some_ne_none : {x : ℕ × Ptr} → some x ≢ none
some_ne_none e = cc

-- the slots but one, renumbered
abbrev skip : (ℕ → Bytes) → ℕ → ℕ → Bytes
skip queue ptr i = if ltb i ptr then queue i else queue (suc i)

skip_lem :
    (queue : ℕ → Bytes) (ptr i : ℕ)
    → i ≢ ptr
    → i < map_entries
    → ptr < map_entries
    → (k : ℕ) × (k < map_entries - 1) × (skip queue ptr k ≡ queue i)
skip_lem queue ptr i ne h hp = elim (Bool-cases (ltb i ptr)) [
  | inl before ↦ (i, ground arith, rw before)
  | inr behind ↦ (
    i - 1,
    ground arith,
    let last : ltb (i - 1) ptr ≡ false = ground arith in rw last (ap queue (ground arith)),
  )
]

module _ {d : Dpdk} (laws : Laws d) (s : State d) where
  abbrev victim : Bytes
  victim = s.lru_queue s.lru_ptr

  evict-none : d.lookup_data s.client_pkts victim ≡ none → evict s ≡ s
  unfolding evict
  evict-none e = rw (evict, e)

  evict-some :
      (i : ℕ) (b : Ptr)
      → d.lookup_data s.client_pkts victim ≡ some (i, b)
      → evict s ≡ log_event (record s { client_pkts = d.del_key s.client_pkts victim }) (free b)
  unfolding evict
  evict-some i b e = rw (evict, e)

  evict-table : (evict s).client_pkts ≡ make_room s
  unfolding make_room
  evict-table = elim (Option-cases (d.lookup_data s.client_pkts victim)) [
    | inl absent ↦ rw (evict-none absent, make_room, absent) refl
    | inr (b, found) ↦ rw (evict-some b.0 b.1 found, make_room, found) refl
  ]

  -- After an eviction the victim is not in the table, and every other key is as it was; the queue
  -- and the key that is held are untouched.
  record IsEvicted (s' : State d) : Type 0 where
    gone : d.lookup_data s'.client_pkts victim ≡ none
    others :
        (j : Bytes) → j ≢ victim → d.lookup_data s'.client_pkts j ≡ d.lookup_data s.client_pkts j
    same_queue : s'.lru_queue ≡ s.lru_queue
    same_ptr : s'.lru_ptr ≡ s.lru_ptr
    same_key : s'.key_hold ≡ s.key_hold

  evict-IsEvicted : IsEvicted (evict s)
  evict-IsEvicted = elim (Option-cases (d.lookup_data s.client_pkts victim)) [
    | inl absent ↦ rw (evict-none absent) (record {
      gone = absent;
      others = λ j ne. refl;
      same_queue = refl;
      same_ptr = refl;
      same_key = refl;
    })
    | inr (b, found) ↦ rw (evict-some b.0 b.1 found) (record {
      gone = laws.lookup-del_self s.client_pkts victim;
      others = λ j ne. laws.lookup-del_ne s.client_pkts victim j (λ e. ne (sym e));
      same_queue = refl;
      same_ptr = refl;
      same_key = refl;
    })
  ]

  module _ (v : IsListed d s.client_pkts s.lru_queue s.lru_ptr) where
    -- What is left after the eviction stands in one of the other slots.
    left_listed :
        (j : Bytes)
        → d.lookup_data (evict s).client_pkts j ≢ none
        → (i : ℕ) × (i < map_entries) × (i ≢ s.lru_ptr) × (s.lru_queue i ≡ j)
    left_listed j there =
        let is = evict-IsEvicted in
        let other : j ≢ victim =
          λ e. there (ap (d.lookup_data (evict s).client_pkts) e ∙ is.gone) in
        let (i, lt, at) = v.listed j (λ e. there (is.others j other ∙ e)) in
        (i, lt, (λ e. other (sym at ∙ ap s.lru_queue e)), at)

    room :
        (j : Bytes)
        → d.lookup_data (evict s).client_pkts j ≢ none
        → (k : ℕ) × (k < map_entries - 1) × (skip s.lru_queue s.lru_ptr k ≡ j)
    room j there =
        let (i, lt, ne, at) = left_listed j there in
        let (k, lt', at') = skip_lem s.lru_queue s.lru_ptr i ne lt v.ptr_in in (k, lt', at' ∙ at)

    -- The table has fewer than MAP_ENTRIES keys then: this many slots list them.
    pub room_left :
        (j : Bytes)
        → d.lookup_data (make_room s) j ≢ none
        → (k : ℕ) × (k < map_entries - 1) × (skip s.lru_queue s.lru_ptr k ≡ j)
    room_left j there =
        room j (λ e. there (ap (λ (u : d.Table). d.lookup_data u j) (sym evict-table) ∙ e))

    left_absent :
        d.lookup_data s.client_pkts s.key_hold ≡ none
        → d.lookup_data (evict s).client_pkts s.key_hold ≡ none
    left_absent absent =
        let is = evict-IsEvicted in
        elim (Bool-cases (bytes_eq s.key_hold victim)) [
          | inl same ↦
              ap (d.lookup_data (evict s).client_pkts) (bytes_eq_sound s.key_hold victim same)
              ∙ is.gone
          | inr differs ↦ is.others s.key_hold (bytes_ne s.key_hold victim differs) ∙ absent
        ]

    pub make_room-absent :
        d.lookup_data s.client_pkts s.key_hold ≡ none
        → d.lookup_data (make_room s) s.key_hold ≡ none
    make_room-absent absent =
        ap (λ (u : d.Table). d.lookup_data u s.key_hold) (sym evict-table) ∙ left_absent absent

    enqueued : (curr : Ptr) → State d
    enqueued curr = record (enqueue s) {
      client_pkts = d.add_key_data (enqueue s).client_pkts (enqueue s).key_hold curr;
    }

    enqueued-table :
        (curr : Ptr)
        → (enqueued curr).client_pkts ≡ d.add_key_data (evict s).client_pkts s.key_hold curr
    unfolding enqueued enqueue
    enqueued-table curr =
        ap (λ (k : Bytes). d.add_key_data (evict s).client_pkts k curr) evict-IsEvicted.same_key

    enqueued-queue :
        (curr : Ptr) → (enqueued curr).lru_queue ≡ update s.lru_queue s.lru_ptr s.key_hold
    unfolding enqueued enqueue
    enqueued-queue curr = let is = evict-IsEvicted in rw (is.same_queue, is.same_ptr, is.same_key)

    enqueued-ptr : (curr : Ptr) → (enqueued curr).lru_ptr ≡ (s.lru_ptr + 1) % map_entries
    unfolding enqueued enqueue
    enqueued-ptr curr = ap (λ (n : ℕ). (n + 1) % map_entries) evict-IsEvicted.same_ptr

    listed-add :
        (curr : Ptr) (j : Bytes)
        → d.lookup_data (d.add_key_data (evict s).client_pkts s.key_hold curr) j ≢ none
        → (i : ℕ) × (i < map_entries) × (update s.lru_queue s.lru_ptr s.key_hold i ≡ j)
    listed-add curr j there = elim (Bool-cases (bytes_eq s.key_hold j)) [
      | inl same ↦ (s.lru_ptr, v.ptr_in, rw (==_refl s.lru_ptr) (bytes_eq_sound s.key_hold j same))
      | inr differs ↦
          let kept =
            laws.lookup-add_ne (evict s).client_pkts s.key_hold j curr
              (bytes_ne s.key_hold j differs) in
          let (i, lt, ne, at) = left_listed j (λ e. there (kept ∙ e)) in
          let elsewhere : (i == s.lru_ptr) ≡ false = ground arith in (i, lt, rw elsewhere at)
    ]

    -- For a hash table with the laws of rte_hash whose keys all stand in LRU_queue: a key that is
    -- not in the table is added to it, and registered at a position within pkt_counts with the
    -- packet as its chain, if there is a place for it; what stood in the oldest slot of the queue
    -- gives way, no other key changes, and all keys of the table still stand in the queue.
    pub register_new :
        (curr : Ptr)
        → d.lookup_data s.client_pkts s.key_hold ≡ none
        → (s' : State d) × (register none curr s ≡ some s')
          × (s'.client_pkts ≡ d.add_key_data (make_room s) s.key_hold curr)
          × (HasPlace s s.key_hold curr
              → (i : ℕ) × (i < map_entries)
                × (d.lookup_data s'.client_pkts s.key_hold ≡ some (i, curr)))
          × ((j : Bytes)
              → j ≢ s.key_hold
              → j ≢ victim
              → d.lookup_data s'.client_pkts j ≡ d.lookup_data s.client_pkts j)
          × (s.key_hold ≢ victim → d.lookup_data s'.client_pkts victim ≡ none)
          × IsListed d s'.client_pkts s'.lru_queue s'.lru_ptr
    unfolding register
    register_new curr absent =
        let is = evict-IsEvicted in
        let t = (evict s).client_pkts in
        let table : (enqueued curr).client_pkts ≡ d.add_key_data (make_room s) s.key_hold curr =
          enqueued-table curr
          ∙ ap (λ (u : d.Table). d.add_key_data u s.key_hold curr) evict-table in
        (
          enqueued curr,
          unfold enqueued in refl,
          table,
          λ place.
              rw table
                (laws.lookup-add_new (make_room s) s.key_hold curr (make_room-absent absent) place),
          λ j ne ne'.
              rw (enqueued-table curr)
                (laws.lookup-add_ne t s.key_hold j curr (λ e. ne (sym e)) ∙ is.others j ne'),
          λ ne. rw (enqueued-table curr) (laws.lookup-add_ne t s.key_hold victim curr ne ∙ is.gone),
          record {
            listed = λ j there.
                subst (λ (q : ℕ → Bytes). (k : ℕ) × (k < map_entries) × (q k ≡ j))
                  (sym (enqueued-queue curr))
                  (listed-add curr j (λ e.
                    there (ap (λ (u : d.Table). d.lookup_data u j) (enqueued-table curr) ∙ e)));
            ptr_in = rw (enqueued-ptr curr) (omega arith);
          },
        )

    pub add_old-IsListed :
        (curr first : Ptr) (i : ℕ)
        → d.lookup_data s.client_pkts s.key_hold ≡ some (i, first)
        → IsListed d (d.add_key_data s.client_pkts s.key_hold curr) s.lru_queue s.lru_ptr
    add_old-IsListed curr first i found = record {
      listed = λ j there. elim (Bool-cases (bytes_eq j s.key_hold)) [
        | inl same ↦ v.listed j (λ e. some_ne_none (
            sym found
            ∙ ap (d.lookup_data s.client_pkts) (sym (bytes_eq_sound j s.key_hold same))
            ∙ e))
        | inr differs ↦ v.listed j (λ e. there (
            laws.lookup-add_ne s.client_pkts s.key_hold j curr
              (λ e'. bytes_ne j s.key_hold differs (sym e'))
            ∙ e))
      ];
      ptr_in = v.ptr_in;
    }

    -- For a hash table with the laws of rte_hash whose keys all stand in LRU_queue: a key that is in
    -- the table already gets the new packet, which is not NULL, in front of the chain of clients
    -- that waited for it; nothing is released or evicted, no other key changes, and all keys still
    -- stand in the queue.
    pub register_again :
        (curr first : Ptr) (i : ℕ)
        → d.lookup_data s.client_pkts s.key_hold ≡ some (i, first)
        → curr ≢ null
        → (s' : State d) × (register (some (i, first)) curr s ≡ some s')
          × (d.lookup_data s'.client_pkts s.key_hold ≡ some (i, curr))
          × ((s'.world.heap curr).next ≡ first)
          × (s'.world.trace ≡ s.world.trace)
          × ((j : Bytes)
              → j ≢ s.key_hold
              → d.lookup_data s'.client_pkts j ≡ d.lookup_data s.client_pkts j)
          × IsListed d s'.client_pkts s'.lru_queue s'.lru_ptr
    unfolding register chain_to
    register_again curr first i found ne =
        let t = d.add_key_data s.client_pkts s.key_hold curr in
        let here = laws.lookup-add_old s.client_pkts s.key_hold curr first i found in
        let others = λ (j : Bytes) (differs : j ≢ s.key_hold).
          laws.lookup-add_ne s.client_pkts s.key_hold j curr (λ e. differs (sym e)) in
        let b = record (s.world.heap curr) { next = first } in
        let not_null : (curr == null) ≡ false = ground arith in
        (
          record s { world = set_mbuf s.world curr b; client_pkts = t },
          rw (register, not_null),
          here,
          ap (λ (c : Mbuf). c.next) (heap-set_mbuf s.world curr b),
          refl,
          others,
          add_old-IsListed curr first i found,
        )
