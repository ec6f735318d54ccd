-- ===== src/Typed/Client.antt =====
-- A request of a client keeps the types: insert_ukey_group, construct_pkt_and_send_to_server and
-- app_client_in.
use kernel_bypass_group_proj.Typed.Copies.{copy_mbuf-HoldsBytes, copy_small-HoldsBytes}
use kernel_bypass_group_proj.Base.{
  ℕ, ◌-◌, ◌^◌, ◌≤◌, ◌<◌, inl, inr, Bytes, List, [], ◌∷◌, Option, none, some, Bool, true, false,
  ◌==◌, arith, ltb, ltb→lt, Bool-cases, Option-cases, if◌then◌else◌, length, length-append, All,
  All-append, take-All, get_or-All, length-take_le,
}
use kernel_bypass_group_proj.Base.Int.{pos}
use kernel_bypass_group_proj.Base.Results.{Ensures, fails, gives, bind, follow, branch}
use kernel_bypass_group_proj.Config.{
  map_entries, min_outstanding_req, target_ip_text, max_payload_len,
}
use kernel_bypass_group_proj.Mem.{slice}
use kernel_bypass_group_proj.Dpdk.{Dpdk, Ptr, null}
use kernel_bypass_group_proj.World.{data_of, log, refcnt_update}
use kernel_bypass_group_proj.Utils.{ip_str_to_int}
use kernel_bypass_group_proj.Api.State.{State, update}
use kernel_bypass_group_proj.Api.Keys.{construct_keys_packet}
use kernel_bypass_group_proj.Api.Keys.Text.{
  strip_keys-IsByteText, construct_keys_packet-IsByteText, slice-IsByteText,
}
use kernel_bypass_group_proj.Api.Group.{has_key, insert_ukey_group}
use kernel_bypass_group_proj.Api.Signature.{print_signature}
use kernel_bypass_group_proj.Api.Payload.{init_rcv_app_payload, get_iph_udph_from_buf}
use kernel_bypass_group_proj.Api.Flush.{
  into_payload, kept_size, split_group, send_group, construct_pkt_and_send_to_server,
}
use kernel_bypass_group_proj.Api.Client.{
  init_memcached_pkt, current_buf, evict, enqueue, chain_to, register, reset_count, is_full,
  add_key, add_keys, app_client_in,
}
use kernel_bypass_group_proj.Typed.{
  IsTyped-world, IsTyped-pkt_counts, IsByteText, IsByteDpdk, IsInt16, IsTyped, set_mbuf-HoldsBytes,
}
use kernel_bypass_group_proj.Typed.Network.{log-HoldsBytes, app_send-HoldsBytes}

pub update-All :
    {A : Type 0} (P : A → Type 0) (f : ℕ → A) (i : ℕ) (v : A)
    → ((j : ℕ) → P (f j))
    → P v
    → (j : ℕ) → P (update f i v j)
update-All P f i v h p j = elim (Bool-cases (j == i)) [
  | inl same ↦ rw same p
  | inr other ↦ rw other (h j)
]

-- the keys that are sent and those that are left
record IsSplit (r : List Bytes × List Bytes) : Type 0 where
  sent : All IsByteText r.0
  few : length r.0 ≤ map_entries
  kept : All IsByteText r.1
  short : length r.1 ≤ map_entries

split_group-IsSplit :
    (full_pkt : Bool) (ukey : List Bytes)
    → All IsByteText ukey
    → length ukey ≤ map_entries
    → IsSplit (split_group full_pkt ukey)
unfolding split_group
split_group-IsSplit true ukey text few = record {
  sent = take-All IsByteText _ ukey text;
  few = omega (arith, length-take_le (length ukey - 1) ukey);
  kept = (get_or-All IsByteText ukey _ [] tt text, tt);
  short = ground arith;
}
split_group-IsSplit false ukey text few = record {
  sent = text;
  few = few;
  kept = tt;
  short = ground arith;
}

kept_size_lem : (ks : List Bytes) → kept_size ks < 2 ^ 16
unfolding kept_size
kept_size_lem [] = ground arith
kept_size_lem (k ∷ ks) = omega arith

into_payload-IsByteText : (text : Bytes) → IsByteText text → Ensures IsByteText (into_payload text)
unfolding into_payload
into_payload-IsByteText text h = elim (Bool-cases (ltb (length text) max_payload_len)) [
  | inl fits ↦ rw fits (gives h)
  | inr long ↦ rw long fails
]

module _ {d : Dpdk} (ok : IsByteDpdk d) where
  insert_ukey_group-IsTyped :
      (s : State d) (key : Bytes)
      → IsTyped s
      → IsByteText key
      → Ensures IsTyped (insert_ukey_group key s)
  unfolding insert_ukey_group
  insert_ukey_group-IsTyped s key is text = elim (Bool-cases (has_key key s.ukey)) [
    | inl old ↦ rw old (gives is)
    | inr new ↦ elim (Bool-cases (ltb (length s.ukey) map_entries)) [
      | inl fits ↦
          rw (new, fits)
            (gives (record {
              world = is.world;
              ukey = All-append IsByteText s.ukey (key ∷ []) is.ukey (text, tt);
              ukey_len = omega (arith, length-append s.ukey (key ∷ []), ltb→lt _ _ fits);
              total_ukey_size = omega arith;
              request_id = is.request_id;
              outstanding_req = is.outstanding_req;
              pkt_counts = is.pkt_counts;
              keys_sent = is.keys_sent;
              keys_rcvd = is.keys_rcvd;
              last_seq_id = is.last_seq_id;
            }))
      | inr over ↦ rw (new, over) fails
    ]
  ]

  send_group-IsTyped :
      (s : State d) (r : List Bytes × List Bytes)
      → IsTyped s
      → IsSplit r
      → Ensures IsTyped (send_group s r.0 r.1)
  unfolding send_group
  send_group-IsTyped s r is split =
      follow _
        (into_payload-IsByteText (construct_keys_packet r.0)
          (construct_keys_packet-IsByteText r.0 split.sent))
        (λ payload text.
          follow _
            (app_send-HoldsBytes ok (log s.world (refcnt_update s.memcached_pkt 1)) s.memcached_pkt
              (get_iph_udph_from_buf (data_of s.world s.memcached_pkt)).1 payload s.request_id
              (ip_str_to_int d target_ip_text) true (log-HoldsBytes s.world _ is.world) text)
            (λ w h. gives (record {
              world = h;
              ukey = split.kept;
              ukey_len = split.short;
              total_ukey_size = kept_size_lem r.1;
              request_id = omega arith;
              outstanding_req = omega arith;
              pkt_counts = is.pkt_counts;
              keys_sent =
                  update-All (λ n. n < 2 ^ 16) _ _ _ is.keys_sent (omega (arith, split.few));
              keys_rcvd = update-All IsInt16 _ _ (pos 0) is.keys_rcvd (ground arith);
              last_seq_id = is.last_seq_id;
            })))

  pub construct_pkt_and_send_to_server-IsTyped :
      (full_pkt : Bool) (s : State d)
      → IsTyped s
      → Ensures IsTyped (construct_pkt_and_send_to_server full_pkt s)
  unfolding construct_pkt_and_send_to_server
  construct_pkt_and_send_to_server-IsTyped full_pkt s is = elim (Bool-cases (length s.ukey == 0)) [
    | inl empty ↦ rw empty (gives is)
    | inr some_keys ↦ rw some_keys (elim (Bool-cases (s.memcached_pkt == null)) [
      | inl missing ↦ rw missing fails
      | inr there ↦
          rw there
            (send_group-IsTyped s _ is (split_group-IsSplit full_pkt s.ukey is.ukey is.ukey_len))
    ])
  ]

  pub send_if-IsTyped :
      (c : Bool) (full_pkt : Bool) (s : State d)
      → IsTyped s
      → Ensures IsTyped (if c then construct_pkt_and_send_to_server full_pkt s else some s)
  send_if-IsTyped c full_pkt s is =
      branch c (construct_pkt_and_send_to_server-IsTyped full_pkt s is) (gives is)

  init_memcached_pkt-IsTyped :
      (p : Ptr) (s : State d) → IsTyped s → IsTyped (init_memcached_pkt p s)
  unfolding init_memcached_pkt
  init_memcached_pkt-IsTyped p s is = elim (Bool-cases (s.memcached_pkt == null)) [
    | inl missing ↦ rw missing (IsTyped-world s _ is (copy_mbuf-HoldsBytes s.world p is.world))
    | inr there ↦ rw there is
  ]

  current_buf-IsTyped :
      (is_first : Bool) (p : Ptr) (s : State d) → IsTyped s → IsTyped (current_buf is_first p s).1
  unfolding current_buf
  current_buf-IsTyped true p s is = is
  current_buf-IsTyped false p s is = IsTyped-world s _ is (copy_small-HoldsBytes s.world p is.world)

  evict-IsTyped : (s : State d) → IsTyped s → IsTyped (evict s)
  unfolding evict
  evict-IsTyped s is = elim (Option-cases (d.lookup_data s.client_pkts (s.lru_queue s.lru_ptr))) [
    | inl absent ↦ rw (evict, absent) is
    | inr (e, found) ↦ rw (evict, found) (IsTyped-world s _ is (log-HoldsBytes s.world _ is.world))
  ]

  register-IsTyped :
      (o : Option (ℕ × Ptr)) (curr : Ptr) (s : State d)
      → IsTyped s
      → Ensures IsTyped (register o curr s)
  unfolding register enqueue chain_to
  register-IsTyped none curr s is = gives (evict-IsTyped s is)
  register-IsTyped (some (i, first)) curr s is = elim (Bool-cases (curr == null)) [
    | inl missing ↦ rw missing fails
    | inr there ↦ rw there (
        gives (
          IsTyped-world s _ is
            (set_mbuf-HoldsBytes s.world curr _ is.world (is.world.buffers curr))))
  ]

  reset_count-IsTyped : (s : State d) → IsTyped s → Ensures IsTyped (reset_count s)
  unfolding reset_count
  reset_count-IsTyped s is = elim (Option-cases (d.lookup_data s.client_pkts s.key_hold)) [
    | inl absent ↦ rw (reset_count, absent) fails
    | inr (e, found) ↦
        rw (reset_count, found)
          (gives (
            IsTyped-pkt_counts s _ is
              (update-All (λ n. n < 2 ^ 16) s.pkt_counts e.0 1 is.pkt_counts (ground arith))))
  ]

  add_key-IsTyped :
      (is_first : Bool) (p : Ptr) (key : Bytes) (s : State d)
      → IsTyped s
      → IsByteText key
      → Ensures IsTyped (add_key is_first p key s)
  unfolding add_key
  add_key-IsTyped is_first p key s is text =
      follow _ (insert_ukey_group-IsTyped s key is text) (λ s1 is1.
        bind (print_signature s1.request_id key) _ (λ sig _.
          let s2 = record s1 { key_hold = sig } in
          let (curr, s3) = current_buf is_first p s2 in
          follow _
            (register-IsTyped (d.lookup_data s3.client_pkts s3.key_hold) curr s3
              (current_buf-IsTyped is_first p s2 is1))
            (λ s4 is4.
              follow _ (reset_count-IsTyped s4 is4) (λ s5. send_if-IsTyped (is_full s5) true s5))))

  add_keys-IsTyped :
      (is_first : Bool) (p : Ptr) (keys : List Bytes) (s : State d)
      → IsTyped s
      → All IsByteText keys
      → Ensures IsTyped (add_keys is_first p keys s)
  unfolding add_keys
  add_keys-IsTyped is_first p [] s is text = gives is
  add_keys-IsTyped is_first p (k ∷ ks) s is text =
      follow _ (add_key-IsTyped is_first p k s is text.0)
        (λ s' is'. add_keys-IsTyped false p ks s' is' text.1)

  -- A request of a client, whatever bytes it holds.
  pub app_client_in-IsTyped :
      (garbage : Bytes) (p : Ptr) (udph : ℕ) (s : State d)
      → IsTyped s
      → IsByteText garbage
      → Ensures IsTyped (app_client_in garbage p udph s)
  unfolding app_client_in
  app_client_in-IsTyped garbage p udph s is text =
      let m = data_of s.world p in
      elim (Option-cases (init_rcv_app_payload m udph)) [
        | inl long ↦
            rw (app_client_in, long)
              (gives (IsTyped-world s _ is (log-HoldsBytes s.world _ is.world)))
        | inr (ap, fits) ↦
            rw (app_client_in, fits)
              (follow _
                (strip_keys-IsByteText garbage (slice m ap.payload ap.msg_len) text
                  (slice-IsByteText m ap.payload ap.msg_len (is.world.buffers p)))
                (λ keys all.
                  follow _
                    (add_keys-IsTyped true p keys (init_memcached_pkt p s)
                      (init_memcached_pkt-IsTyped p s is) all)
                    (λ s'. send_if-IsTyped (ltb s'.outstanding_req min_outstanding_req) false s')))
      ]
