-- ===== src/Api/Run/Keys.antt =====
-- The loop of app_client_in in a run: every key is registered, and none is lost.
use kernel_bypass_group_proj.Base.{
  ℕ, ◌+◌, ◌-◌, ◌≤◌, ◌<◌, ◌≡◌, refl, ◌∙◌, ap, inl, inr, Bytes, List, [], ◌∷◌, ◌++◌, some, true,
  false, Bool, ◌||◌, arith, leb, Bool-cases, if◌then◌else◌, length, length-append, All, All-append,
  bytes_eq,
}
use kernel_bypass_group_proj.Config.{map_entries, max_key_length, max_payload_len, gets_len}
use kernel_bypass_group_proj.Dpdk.{Dpdk, Laws, Ptr}
use kernel_bypass_group_proj.Api.State.{State, update}
use kernel_bypass_group_proj.Api.Keys.Size.{packed}
use kernel_bypass_group_proj.Api.Signature.{signature, print_signature-some, length-signature}
use kernel_bypass_group_proj.Api.Flush.{kept_size, construct_pkt_and_send_to_server}
use kernel_bypass_group_proj.Api.Run.Flush.{flush_full-Does}
use kernel_bypass_group_proj.Api.Group.{has_key}
use kernel_bypass_group_proj.Api.Group.Pigeons.{Distinct}
use kernel_bypass_group_proj.Api.Group.Bounds.{
  IsByteKey, IsGroup, length-IsGroup, insert_ukey_group_lem,
}
use kernel_bypass_group_proj.Api.Client.{reset_count, is_full, add_key, add_keys}
use kernel_bypass_group_proj.Api.Client.Same.{reset_count-some}
use kernel_bypass_group_proj.Api.Run.{
  IsHeld, IsHeld-fewer, IsHeld-Moves, Setting, IsFit, Moves, Steps, IsSteady, HasTemplate, IsBusy,
  Does,
}
use kernel_bypass_group_proj.Api.Run.Compose.{
  Moves-refl, Moves-trans, Steps-trans, Steps-quiet, Does-bind, IsBusy-fewer,
}
use kernel_bypass_group_proj.Api.Run.Register.{copies_of, current_buf-Moves, register-IsRegistered}

module _ {d : Dpdk} {t : Setting} (laws : Laws d) (fit : IsFit d t) where
  one-IsGroup : (k : Bytes) → IsByteKey k → IsGroup (k ∷ []) (kept_size (k ∷ []))
  unfolding has_key kept_size
  one-IsGroup k is = record {
    distinct = (refl, tt);
    keys = (is, tt);
    size_exact = omega (arith, is.0.short);
    room = omega (arith, is.0.short);
  }

  -- The state before the group is looked at again: it may hold one key too many.
  record IsLoaded (n : ℕ) (s : State d) (key : Bytes) (s' : State d) : Type 0 where
    steady : IsSteady t n s'
    template : HasTemplate t s'
    ukey : s'.ukey ≡ (if has_key key s.ukey then s.ukey else s.ukey ++ key ∷ [])
    distinct : Distinct s'.ukey
    keys : All IsByteKey s'.ukey
    size_exact : s'.total_ukey_size + length s'.ukey ≡ packed s'.ukey
    steps : Steps t (key ∷ []) s s'

  add_key-IsLoaded :
      (is_first : Bool) (p : Ptr) (key : Bytes) (n : ℕ) (s : State d)
      → IsBusy t (copies_of is_first + n) s
      → IsHeld t s.world p (1 + copies_of is_first)
      → t.Wanted key
      → (s' : State d) × (add_key is_first p key s
          ≡ (if is_full s' then construct_pkt_and_send_to_server true s' else some s'))
        × IsLoaded n s key s'
  unfolding add_key
  add_key-IsLoaded is_first p key n s (o, h) held want =
      let (is, short) = fit.key key want in
      let (ks, m, ran1, dist, all, size, member, ks_ok) = insert_ukey_group_lem s key o.group is in
      let sig = signature s.request_id key in
      let fits : length sig < max_key_length =
        omega (arith, length-signature s.request_id key, short) in
      let s2 = record s { ukey = ks; total_ukey_size = m; key_hold = sig } in
      let steady2 : IsSteady t (copies_of is_first + n) s2 = record {
        listed = o.steady.listed;
        of_run = o.steady.of_run;
        id_small = o.steady.id_small;
        arp = o.steady.arp;
        pool = o.steady.pool;
        enough = o.steady.enough;
      } in
      let (curr, w, buf, there', moves1, pool, enough) =
        current_buf-Moves laws fit is_first p s2 held steady2 in
      let s3 = record s2 { world = w } in
      let (s4, ran2, reg) =
        register-IsRegistered laws fit s3 curr (d.lookup_data s3.client_pkts sig) o.steady.listed
          o.steady.of_run (s.request_id, key, o.steady.id_small, want, refl) there' refl in
      let s5 = record s4 { pkt_counts = update s4.pkt_counts reg.position 1 } in
      let counted : reset_count s4 ≡ some s5 =
        reset_count-some s4 sig reg.position curr reg.same_key reg.found in
      let moves : Moves d t s.world s5.world [] = Moves-trans moves1 reg.moves in
      (
        s5,
        rw (ran1, print_signature-some s.request_id key fits, buf, ran2, counted),
        record {
          steady = record {
            listed = reg.listed;
            of_run = reg.of_run;
            id_small = rw reg.same_id o.steady.id_small;
            arp = moves.arp ∙ o.steady.arp;
            pool = rw reg.same_pool pool;
            enough = rw reg.same_pool enough;
          };
          template = record {
            pooled = rw reg.same_template h.pooled;
            short_header = rw reg.same_template (moves.short s.memcached_pkt h.short_header);
          };
          ukey = reg.same_ukey ∙ ks_ok;
          distinct = rw reg.same_ukey dist;
          keys = rw reg.same_ukey all;
          size_exact = rw (reg.same_ukey, reg.same_size) size;
          steps = record {
            sent = [];
            moves = moves;
            same_keys = λ j.
                ap (has_key j) reg.same_ukey
                ∙ member j
                ∙ unfold has_key in or_last (has_key j s.ukey) (bytes_eq j key);
          };
        },
      )
    where
      or_last : (a b : Bool) → (a || b) ≡ (a || (b || false))
      or_last a b = ground arith

  wanted_with :
      (key : Bytes) (ks : List Bytes)
      → t.Wanted key
      → All t.Wanted ks
      → All t.Wanted (if has_key key ks then ks else ks ++ key ∷ [])
  wanted_with key ks want all = elim (Bool-cases (has_key key ks)) [
    | inl old ↦ rw old all
    | inr new ↦ rw new (All-append t.Wanted ks (key ∷ []) all (want, tt))
  ]

  few_keys :
      {n : ℕ} (s : State d) (key : Bytes) (s' : State d)
      → IsGroup s.ukey s.total_ukey_size
      → IsLoaded n s key s'
      → length s'.ukey ≤ map_entries
  few_keys s key s' g l = elim (Bool-cases (has_key key s.ukey)) [
    | inl old ↦ rw (l.ukey, old) (omega (arith, length-IsGroup g))
    | inr new ↦ rw (l.ukey, new) (omega (arith, length-append s.ukey (key ∷ []), length-IsGroup g))
  ]

  -- A full packet takes all keys but the new one.
  loaded_full :
      (n : ℕ) (s : State d) (key : Bytes) (s' : State d)
      → IsGroup s.ukey s.total_ukey_size
      → All t.Wanted s.ukey
      → t.Wanted key
      → IsLoaded n s key s'
      → is_full s' ≡ true
      → Does t (IsBusy t n) [] s' (construct_pkt_and_send_to_server true s')
  unfolding is_full
  loaded_full n s key s' g all want l full =
      let over : 1458 < packed s'.ukey =
        is_full-over s'.total_ukey_size (length s'.ukey) (packed s'.ukey) l.size_exact full in
      elim (Bool-cases (has_key key s.ukey)) [
        | inl old ↦
            let same : s'.ukey ≡ s.ukey = l.ukey ∙ rw old refl in
            absurd (omega (arith, ap packed same, g.room, over))
        | inr new ↦
            let grown : s'.ukey ≡ s.ukey ++ key ∷ [] = l.ukey ∙ rw new refl in
            flush_full-Does fit s.ukey key l.steady l.template
              (one-IsGroup key (fit.key key want).0) want grown
              (omega (arith, g.room, fit.no_overrun s.ukey all g.distinct))
      ]
    where
      is_full-over :
          (size len bytes : ℕ)
          → size + len ≡ bytes
          → leb (max_payload_len - gets_len - len + 1) size ≡ true
          → 1458 < bytes
      is_full-over size len bytes e h = ground arith

  loaded_room :
      (n : ℕ) (s : State d) (key : Bytes) (s' : State d)
      → IsGroup s.ukey s.total_ukey_size
      → All t.Wanted s.ukey
      → t.Wanted key
      → IsLoaded n s key s'
      → is_full s' ≡ false
      → IsBusy t n s'
  unfolding is_full
  loaded_room n s key s' g all want l room = (
    record {
      steady = l.steady;
      group = record {
        distinct = l.distinct;
        keys = l.keys;
        size_exact = l.size_exact;
        room =
            is_full-below s'.total_ukey_size (length s'.ukey) (packed s'.ukey) l.size_exact
              (few_keys s key s' g l) room;
      };
      wanted = rw l.ukey (wanted_with key s.ukey want all);
    },
    l.template,
  )
    where
      is_full-below :
          (size len bytes : ℕ)
          → size + len ≡ bytes
          → len ≤ map_entries
          → leb (max_payload_len - gets_len - len + 1) size ≡ false
          → bytes ≤ 1458
      is_full-below size len bytes e few h = ground arith

  -- One round of the loop: it returns, the state is in order again, and of the keys that were there
  -- and the new one each is asked for or still stands in the group.
  pub add_key-Does :
      (is_first : Bool) (p : Ptr) (key : Bytes) (n : ℕ) (s : State d)
      → IsBusy t (copies_of is_first + n) s
      → IsHeld t s.world p (1 + copies_of is_first)
      → t.Wanted key
      → Does t (IsBusy t n) (key ∷ []) s (add_key is_first p key s)
  add_key-Does is_first p key n s busy held want =
      let (s', ran, l) = add_key-IsLoaded is_first p key n s busy held want in
      let g = busy.0.group in
      let all = busy.0.wanted in
      elim (Bool-cases (is_full s')) [
        | inl full ↦
            let (s2, e, done, st) = loaded_full n s key s' g all want l full in
            (s2, ran ∙ rw full e, done, Steps-trans l.steps st)
        | inr room ↦ (s', ran ∙ rw room refl, loaded_room n s key s' g all want l room, l.steps)
      ]

  -- the rounds behind the first, each with a copy
  more_keys-Does :
      (p : Ptr) (keys : List Bytes) (n : ℕ) (s : State d)
      → IsBusy t (length keys + n) s
      → IsHeld t s.world p (1 + length keys)
      → All t.Wanted keys
      → Does t (IsBusy t n) keys s (add_keys false p keys s)
  unfolding add_keys
  more_keys-Does p [] n s busy held want =
      (s, refl, IsBusy-fewer (omega arith) busy, Steps-quiet (Moves-refl s.world) refl)
  more_keys-Does p (k ∷ ks) n s busy held want =
      Does-bind (add_keys false p ks)
        (add_key-Does false p k (length ks + n) s (IsBusy-fewer (omega arith) busy)
          (IsHeld-fewer (omega arith) held) want.0)
        (λ s1 busy1 st.
          more_keys-Does p ks n s1 busy1 (IsHeld-Moves st.moves (IsHeld-fewer (omega arith) held))
            want.1)

  -- The loop over the keys of a packet.
  pub add_keys-Does :
      (p : Ptr) (keys : List Bytes) (n : ℕ) (s : State d)
      → IsBusy t (length keys + n) s
      → IsHeld t s.world p (length keys)
      → All t.Wanted keys
      → Does t (IsBusy t n) keys s (add_keys true p keys s)
  unfolding add_keys
  add_keys-Does p [] n s busy held want =
      (s, refl, IsBusy-fewer (omega arith) busy, Steps-quiet (Moves-refl s.world) refl)
  add_keys-Does p (k ∷ ks) n s busy held want =
      Does-bind (add_keys false p ks)
        (add_key-Does true p k (length ks + n) s (IsBusy-fewer (omega arith) busy)
          (IsHeld-fewer (omega arith) held) want.0)
        (λ s1 busy1 st.
          more_keys-Does p ks n s1 busy1 (IsHeld-Moves st.moves (IsHeld-fewer (omega arith) held))
            want.1)
