-- ===== src/Api/Run/Compose.antt =====
-- How the steps of a run follow one another.
use kernel_bypass_group_proj.Base.{
  ℕ, ◌≤◌, ◌≡◌, refl, sym, ◌∙◌, ap, Bytes, List, [], ◌∷◌, ◌++◌, Option, Bool, false, ◌||◌, arith,
  append_assoc, append-nil,
}
use kernel_bypass_group_proj.Mem.{Mem}
use kernel_bypass_group_proj.Dpdk.{Dpdk}
use kernel_bypass_group_proj.World.{World, Event}
use kernel_bypass_group_proj.Api.State.{State, ◌>>=◌}
use kernel_bypass_group_proj.Api.Group.{has_key}
use kernel_bypass_group_proj.Api.Run.{
  Setting, Asks, still, release, refer, ask, Moves, SameKeys, Serves, Steps, Does, IsOrderly,
  IsBusy,
}

pub has_key-++ :
    (j : Bytes) (ks ls : List Bytes) → has_key j (ks ++ ls) ≡ (has_key j ks || has_key j ls)
unfolding has_key
has_key-++ j [] ls = refl
has_key-++ j (k ∷ ks) ls = ground (arith, has_key-++ j ks ls)

SameKeys-trans :
    (sent1 sent2 ukey0 ukey1 ukey2 xs ys : List Bytes)
    → SameKeys sent1 ukey1 ukey0 xs
    → SameKeys sent2 ukey2 ukey1 ys
    → SameKeys (sent1 ++ sent2) ukey2 ukey0 (xs ++ ys)
SameKeys-trans sent1 sent2 ukey0 ukey1 ukey2 xs ys a b j =
    ap (has_key j) (append_assoc sent1 sent2 ukey2)
    ∙ has_key-++ j sent1 (sent2 ++ ukey2)
    ∙ or_chain _ _ _ _ _ _ (b j) (sym (has_key-++ j sent1 ukey1) ∙ a j)
    ∙ ap (λ b. has_key j ukey0 || b) (sym (has_key-++ j xs ys))
  where
    or_chain :
        (first later mid ys0 start xs0 : Bool)
        → later ≡ (mid || ys0)
        → (first || mid) ≡ (start || xs0)
        → (first || later) ≡ (start || (xs0 || ys0))
    or_chain first later mid ys0 start xs0 h g = ground arith

module _ {d : Dpdk} {mac : Mem} where
  pub Asks-trans :
      {a b c : List Event} {ks ls : List Bytes}
      → Asks d mac a b ks
      → Asks d mac b c ls
      → Asks d mac a c (ks ++ ls)
  Asks-trans {a} {b} {c} {ks} h still = rw (append-nil ks) h
  Asks-trans h (release p g e) = release p (Asks-trans h g) e
  Asks-trans h (refer p n g e) = refer p n (Asks-trans h g) e
  Asks-trans {a} {b} {c} {ks} h (ask {ks = ls} p f id new g e ej is req) =
      ask p f id new (Asks-trans h g) e (ap (λ l. ks ++ l) ej ∙ sym (append_assoc ks ls new)) is req

module _ {d : Dpdk} {t : Setting} where
  pub Moves-refl : (w : World) → Moves d t w w []
  Moves-refl w = record {
    asks = still;
    arp = refl;
    arrived = λ q h. refl;
    lengths = λ q h. refl;
    short = λ q h. h;
  }

  pub Moves-trans :
      {u v w : World} {ks ls : List Bytes}
      → Moves d t u v ks
      → Moves d t v w ls
      → Moves d t u w (ks ++ ls)
  Moves-trans m n = record {
    asks = Asks-trans m.asks n.asks;
    arp = n.arp ∙ m.arp;
    arrived = λ q h. n.arrived q h ∙ m.arrived q h;
    lengths = λ q h. n.lengths q h ∙ m.lengths q h;
    short = λ q h. n.short q (m.short q h);
  }

  pub Steps-trans :
      {r s u : State d} {xs ys : List Bytes}
      → Steps t xs r s
      → Steps t ys s u
      → Steps t (xs ++ ys) r u
  Steps-trans {r} {s} {u} {xs} {ys} a b = record {
    sent = a.sent ++ b.sent;
    moves = Moves-trans a.moves b.moves;
    same_keys = SameKeys-trans a.sent b.sent r.ukey s.ukey u.ukey xs ys a.same_keys b.same_keys;
  }

  pub Serves-trans :
      {r s u : State d} {xs ys : List Bytes}
      → Serves t xs r s
      → Serves t ys s u
      → Serves t (xs ++ ys) r u
  Serves-trans {r} {s} {u} {xs} {ys} a b = record {
    sent = a.sent ++ b.sent;
    asks = Asks-trans a.asks b.asks;
    same_keys = SameKeys-trans a.sent b.sent r.ukey s.ukey u.ukey xs ys a.same_keys b.same_keys;
  }

  pub Steps-Serves : {r s : State d} {xs : List Bytes} → Steps t xs r s → Serves t xs r s
  Steps-Serves a = record { sent = a.sent; asks = a.moves.asks; same_keys = a.same_keys }

  -- A step that does not concern the keys.
  pub Steps-quiet :
      {s s' : State d} → Moves d t s.world s'.world [] → s'.ukey ≡ s.ukey → Steps t [] s s'
  unfolding has_key
  Steps-quiet {s} m e = record {
    sent = [];
    moves = m;
    same_keys = λ j. ap (has_key j) e ∙ or_false (has_key j s.ukey);
  }
    where
      or_false : (b : Bool) → b ≡ (b || false)
      or_false b = ground arith

  pub Does-bind :
      {P Q : State d → Type 0} {xs ys : List Bytes} {s : State d} {o : Option (State d)}
      (f : State d → Option (State d))
      → Does t P xs s o
      → ((s1 : State d) → P s1 → Steps t xs s s1 → Does t Q ys s1 (f s1))
      → Does t Q (xs ++ ys) s (o >>= f)
  Does-bind f (s1, e, p, st) g =
      let (s2, e', q, st') = g s1 p st in (s2, ap (λ o. o >>= f) e ∙ e', q, Steps-trans st st')

  -- fewer copies are enough, too
  pub IsOrderly-fewer : {m n : ℕ} {s : State d} → m ≤ n → IsOrderly t n s → IsOrderly t m s
  IsOrderly-fewer h o = record {
    steady = record {
      listed = o.steady.listed;
      of_run = o.steady.of_run;
      id_small = o.steady.id_small;
      arp = o.steady.arp;
      pool = o.steady.pool;
      enough = omega (arith, h, o.steady.enough);
    };
    group = o.group;
    wanted = o.wanted;
  }

  pub IsBusy-fewer : {m n : ℕ} {s : State d} → m ≤ n → IsBusy t n s → IsBusy t m s
  IsBusy-fewer h (o, template) = (IsOrderly-fewer h o, template)
