-- ===== src/Api/Sound/Client.antt =====
-- Requests of clients keep the invariant: the table of waiting clients, add_key and app_client_in.
use kernel_bypass_group_proj.Base.{
  ℕ, ◌+◌, ◌-◌, ◌<◌, ◌≡◌, refl, ap, subst, inl, inr, Bytes, List, [], ◌∷◌, Option, none, some, Bool,
  true, false, ◌==◌, arith, leb, Bool-cases, Option-cases, if◌then◌else◌, length, All,
}
use kernel_bypass_group_proj.Config.{max_key_length, max_payload_len, gets_len}
use kernel_bypass_group_proj.Mem.{slice}
use kernel_bypass_group_proj.Dpdk.{Dpdk, Laws, Ptr, null}
use kernel_bypass_group_proj.World.{data_of}
use kernel_bypass_group_proj.Api.State.{State}
use kernel_bypass_group_proj.Api.Keys.{c_str}
use kernel_bypass_group_proj.Api.Keys.Short.{strip_keys-IsShort}
use kernel_bypass_group_proj.Api.Payload.{init_rcv_app_payload}
use kernel_bypass_group_proj.Api.Signature.{print_signature}
use kernel_bypass_group_proj.Api.Flush.{construct_pkt_and_send_to_server}
use kernel_bypass_group_proj.Api.Client.{
  init_memcached_pkt, current_buf, chain_to, register, reset_count, is_full, add_key, add_keys,
  app_client_in,
}
use kernel_bypass_group_proj.Api.Client.Same.{SameAs, register-SameAs}
use kernel_bypass_group_proj.Api.Client.Queue.{register_new, add_old-IsListed}
use kernel_bypass_group_proj.Api.Sound.{IsTidy, IsSoundWith, IsSound}
use kernel_bypass_group_proj.Base.Results.{Ensures, fails, gives, bind, follow}
use kernel_bypass_group_proj.Api.Sound.Group.{
  insert_ukey_group-IsSoundWith, construct_pkt_and_send_to_server-IsSound, send_if_few-IsSound,
}

is_full-IsTidy :
    {ukey : List Bytes} {size : ℕ}
    → IsTidy ukey size 2901
    → leb (max_payload_len - gets_len - length ukey + 1) size ≡ false
    → IsTidy ukey size 1458
is_full-IsTidy t below = record {
  distinct = t.distinct;
  short = t.short;
  few = t.few;
  size_exact = t.size_exact;
  room = ground (arith, t.few, t.size_exact, below);
}

module _ {d : Dpdk} (laws : Laws d) where
  register-IsSoundWith :
      (o : Option (ℕ × Ptr)) (curr : Ptr) (s : State d)
      → d.lookup_data s.client_pkts s.key_hold ≡ o
      → IsSoundWith 2901 s
      → Ensures (IsSoundWith 2901) (register o curr s)
  register-IsSoundWith none curr s absent is =
      let (s', ran, _, _, _, _, listed) = register_new laws s is.2 curr absent in
      let same : SameAs s (some s') = subst (SameAs s) ran (register-SameAs s curr) in
      rw ran (gives (rw (same.same_ukey, same.same_size) is.0, rw same.same_id is.1, listed))
  register-IsSoundWith (some (i, first)) curr s found is = elim (Bool-cases (curr == null)) [
    | inl missing ↦ unfold register in unfold chain_to in rw missing fails
    | inr there ↦
        unfold register in
        unfold chain_to in
        rw there (gives (is.0, is.1, add_old-IsListed laws s is.2 curr first i found))
  ]

  reset_count-IsSoundWith :
      (s : State d) → IsSoundWith 2901 s → Ensures (IsSoundWith 2901) (reset_count s)
  unfolding reset_count
  reset_count-IsSoundWith s is = elim (Option-cases (d.lookup_data s.client_pkts s.key_hold)) [
    | inl absent ↦ rw (reset_count, absent) fails
    | inr (p, found) ↦ rw (reset_count, found) (gives is)
  ]

  current_buf-IsSoundWith :
      (is_first : Bool) (p : Ptr) (s : State d)
      → IsSoundWith 2901 s
      → IsSoundWith 2901 (current_buf is_first p s).1
  unfolding current_buf
  current_buf-IsSoundWith true p s is = is
  current_buf-IsSoundWith false p s is = is

  -- A group that is not full is below the limit.
  is_full-IsSound :
      (s : State d)
      → IsSoundWith 2901 s
      → Ensures IsSound (if is_full s then construct_pkt_and_send_to_server true s else some s)
  is_full-IsSound s is = elim (Bool-cases (is_full s)) [
    | inl full ↦ rw full (construct_pkt_and_send_to_server-IsSound true s is)
    | inr below ↦ rw below (gives (is_full-IsTidy is.0 (unfold is_full in below), is.1, is.2))
  ]

  add_key-IsSound :
      (is_first : Bool) (p : Ptr) (key : Bytes) (s : State d)
      → IsSound s
      → length key < max_key_length
      → Ensures IsSound (add_key is_first p key s)
  unfolding add_key
  add_key-IsSound is_first p key s is short =
      follow _ (insert_ukey_group-IsSoundWith s key is short) (λ s1 is1.
        bind (print_signature s1.request_id key) _ (λ sig _.
          let s2 = record s1 { key_hold = sig } in
          let (curr, s3) = current_buf is_first p s2 in
          follow _
            (register-IsSoundWith (d.lookup_data s3.client_pkts s3.key_hold) curr s3 refl
              (current_buf-IsSoundWith is_first p s2 is1))
            (λ s4 is4. follow _ (reset_count-IsSoundWith s4 is4) is_full-IsSound)))

  add_keys-IsSound :
      (is_first : Bool) (p : Ptr) (keys : List Bytes) (s : State d)
      → IsSound s
      → All (λ k. length k < max_key_length) keys
      → Ensures IsSound (add_keys is_first p keys s)
  unfolding add_keys
  add_keys-IsSound is_first p [] s is short = gives is
  add_keys-IsSound is_first p (k ∷ ks) s is short =
      follow _ (add_key-IsSound is_first p k s is short.0)
        (λ s' is'. add_keys-IsSound false p ks s' is' short.1)

  init_memcached_pkt-IsSound :
      (p : Ptr) (s : State d) → IsSound s → IsSound (init_memcached_pkt p s)
  unfolding init_memcached_pkt
  init_memcached_pkt-IsSound p s is = elim (Bool-cases (s.memcached_pkt == null)) [
    | inl missing ↦ rw missing is
    | inr there ↦ rw there is
  ]

  -- A request of a client, whatever it holds, keeps the invariant.
  pub app_client_in-IsSound :
      (garbage : Bytes) (p : Ptr) (udph : ℕ) (s : State d)
      → IsSound s
      → length (c_str garbage) < max_key_length
      → Ensures IsSound (app_client_in garbage p udph s)
  unfolding app_client_in
  app_client_in-IsSound garbage p udph s is short =
      let m = data_of s.world p in
      elim (Option-cases (init_rcv_app_payload m udph)) [
        | inl long ↦ rw (app_client_in, long) (gives is)
        | inr (ap, ok) ↦
            rw (app_client_in, ok)
              (follow _ (strip_keys-IsShort garbage (slice m ap.payload ap.msg_len) short)
                (λ keys all.
                  follow _
                    (add_keys-IsSound true p keys (init_memcached_pkt p s)
                      (init_memcached_pkt-IsSound p s is) all)
                    send_if_few-IsSound))
      ]
