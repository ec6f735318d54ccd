-- ===== src/Api/Sound/Group.antt =====
-- The group of keys under insert_ukey_group and construct_pkt_and_send_to_server.
use kernel_bypass_group_proj.Base.{
  ℕ, ◌+◌, ◌-◌, ◌%◌, ◌<◌, ◌≡◌, refl, inl, inr, Bytes, List, [], ◌∷◌, some, Bool, true, false, ◌==◌,
  arith, ltb, ltb→lt, Bool-cases, if◌then◌else◌, length, length-append, All, All-append, get_or-All,
}
use kernel_bypass_group_proj.Config.{
  min_outstanding_req, target_ip_text, map_entries, max_key_length, max_req_id,
}
use kernel_bypass_group_proj.Dpdk.{Dpdk, null}
use kernel_bypass_group_proj.Api.State.{State}
use kernel_bypass_group_proj.Api.Keys.Size.{packed-append}
use kernel_bypass_group_proj.World.{log, refcnt_update, data_of}
use kernel_bypass_group_proj.Utils.{ip_str_to_int}
use kernel_bypass_group_proj.Api.Keys.{construct_keys_packet}
use kernel_bypass_group_proj.Api.Payload.{app_send, get_iph_udph_from_buf}
use kernel_bypass_group_proj.Api.Group.{has_key, insert_ukey_group}
use kernel_bypass_group_proj.Api.Group.Bounds.{Distinct-append}
use kernel_bypass_group_proj.Api.Flush.{
  into_payload, kept_size, split_group, send_group, construct_pkt_and_send_to_server,
}
use kernel_bypass_group_proj.Api.Sound.{IsTidy, IsTidy-raise, IsSoundWith, IsSound, IsSound-raise}
use kernel_bypass_group_proj.Base.Results.{Ensures, fails, gives, bind}
use kernel_bypass_group_proj.Api.Client.Queue.{IsListed}

IsTidy-empty :
    (ukey : List Bytes) {size n : ℕ}
    → IsTidy ukey size n
    → (length ukey == 0) ≡ true
    → IsTidy ukey size 1458
IsTidy-empty [] t e = record {
  distinct = tt;
  short = tt;
  few = ground arith;
  size_exact = t.size_exact;
  room = omega arith;
}
IsTidy-empty (k ∷ ks) t e = absurd (ground arith)

-- one key, or none
kept-IsTidy : (k : Bytes) → length k < max_key_length → IsTidy (k ∷ []) (kept_size (k ∷ [])) 1458
unfolding has_key kept_size
kept-IsTidy k short = record {
  distinct = (refl, tt);
  short = (short, tt);
  few = ground arith;
  size_exact = omega (arith, short);
  room = omega (arith, short);
}

nil-IsTidy : IsTidy [] (kept_size []) 1458
unfolding kept_size
nil-IsTidy = record {
  distinct = tt;
  short = tt;
  few = ground arith;
  size_exact = refl;
  room = omega arith;
}

next_id_small : (r : ℕ) → (r + 1) % max_req_id < max_req_id
next_id_small r = omega arith

split_group-IsTidy :
    (full_pkt : Bool) (ukey : List Bytes)
    → All (λ k. length k < max_key_length) ukey
    → IsTidy (split_group full_pkt ukey).1 (kept_size (split_group full_pkt ukey).1) 1458
unfolding split_group
split_group-IsTidy true ukey short =
    kept-IsTidy _ (get_or-All _ ukey (length ukey - 1) [] (ground arith) short)
split_group-IsTidy false ukey short = nil-IsTidy

module _ {d : Dpdk} where
  -- A key more takes the group over the limit of a packet, but not over that of its count.
  pub insert_ukey_group-IsSoundWith :
      (s : State d) (key : Bytes)
      → IsSound s
      → length key < max_key_length
      → Ensures (IsSoundWith 2901) (insert_ukey_group key s)
  unfolding insert_ukey_group
  insert_ukey_group-IsSoundWith s key is short = elim (Bool-cases (has_key key s.ukey)) [
    | inl old ↦ rw old (gives (IsTidy-raise 2901 (omega arith) is.0, is.1, is.2))
    | inr new ↦ elim (Bool-cases (ltb (length s.ukey) map_entries)) [
      | inl fits ↦
          rw (new, fits)
            (gives (
              record {
                distinct = Distinct-append s.ukey key is.0.distinct new;
                short = All-append _ s.ukey (key ∷ []) is.0.short (short, tt);
                few = omega (arith, length-append s.ukey (key ∷ []), ltb→lt _ _ fits);
                size_exact = omega (
                  arith,
                  is.0.size_exact,
                  is.0.room,
                  short,
                  packed-append s.ukey (key ∷ []),
                  length-append s.ukey (key ∷ []),
                );
                room = omega (arith, is.0.room, short, packed-append s.ukey (key ∷ []));
              },
              is.1,
              is.2,
            ))
      | inr over ↦ rw (new, over) fails
    ]
  ]

  send_group-IsSound :
      (s : State d) (sent kept : List Bytes)
      → IsTidy kept (kept_size kept) 1458
      → IsListed d s.client_pkts s.lru_queue s.lru_ptr
      → Ensures IsSound (send_group s sent kept)
  unfolding send_group
  send_group-IsSound s sent kept tidy listed =
      bind (into_payload (construct_keys_packet sent)) _ (λ payload _.
        bind
          (app_send d (log s.world (refcnt_update s.memcached_pkt 1)) s.memcached_pkt
            (get_iph_udph_from_buf (data_of s.world s.memcached_pkt)).1 payload s.request_id
            (ip_str_to_int d target_ip_text) true)
          _ (λ w _. gives (tidy, next_id_small s.request_id, listed)))

  -- What is left of a group that is sent is below the limit again, whatever was sent.
  pub construct_pkt_and_send_to_server-IsSound :
      (full_pkt : Bool) (s : State d)
      → IsSoundWith 2901 s
      → Ensures IsSound (construct_pkt_and_send_to_server full_pkt s)
  unfolding construct_pkt_and_send_to_server split_group
  construct_pkt_and_send_to_server-IsSound full_pkt s is = elim (Bool-cases (length s.ukey == 0)) [
    | inl empty ↦ rw empty (gives (IsTidy-empty s.ukey is.0 empty, is.1, is.2))
    | inr some_keys ↦ rw some_keys (elim (Bool-cases (s.memcached_pkt == null)) [
      | inl missing ↦ rw missing fails
      | inr there ↦
          rw there (send_group-IsSound s _ _ (split_group-IsTidy full_pkt s.ukey is.0.short) is.2)
    ])
  ]

  pub send_if_few-IsSound :
      (s : State d)
      → IsSound s
      → Ensures IsSound (
          if ltb s.outstanding_req min_outstanding_req
          then construct_pkt_and_send_to_server false s
          else some s)
  send_if_few-IsSound s is = elim (Bool-cases (ltb s.outstanding_req min_outstanding_req)) [
    | inl few ↦ rw few (construct_pkt_and_send_to_server-IsSound false s (IsSound-raise s is))
    | inr many ↦ rw many (gives is)
  ]
