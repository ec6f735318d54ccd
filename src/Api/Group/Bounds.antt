-- ===== src/Api/Group/Bounds.antt =====
-- The group of keys stays within its array and its count of bytes.
use kernel_bypass_group_proj.Base.{
  ℕ, ◌+◌, ◌≤◌, ◌<◌, ◌≡◌, ◌≢◌, refl, ap, Bytes, List, [], ◌∷◌, ◌++◌, some, true, false, ◌||◌, arith,
  inl, inr, Bool-cases, ltb, lt→ltb, bytes_eq, bytes_eq_sound, bytes_eq_iff, if◌then◌else◌, length,
  length-append, All, All-append,
}
use kernel_bypass_group_proj.Config.{map_entries}
use kernel_bypass_group_proj.Dpdk.{Dpdk}
use kernel_bypass_group_proj.Api.State.{State}
use kernel_bypass_group_proj.Api.Keys.RoundTrip.{IsKey}
use kernel_bypass_group_proj.Api.Keys.Size.{packed, packed-append}
use kernel_bypass_group_proj.Api.Group.{has_key, insert_ukey_group}
use kernel_bypass_group_proj.Api.Group.Pigeons.{Distinct, length-le-packed}

-- a key as clients send it, of bytes
abbrev pub IsByteKey : Bytes → Type 0
IsByteKey k = IsKey k × All (λ c. c < 256) k

-- Between two keys the group holds distinct keys, its size is what they take, and there is room
-- for one more.
pub record IsGroup (ukey : List Bytes) (size : ℕ) : Type 0 where
  pub distinct : Distinct ukey
  pub keys : All IsByteKey ukey
  pub size_exact : size + length ukey ≡ packed ukey
  pub room : packed ukey ≤ 1458

All-not_empty : (ks : List Bytes) → All IsByteKey ks → All (λ k. k ≢ []) ks
All-not_empty [] h = tt
All-not_empty (k ∷ ks) h = (h.0.0.not_empty, All-not_empty ks h.1)

All-bytes : (ks : List Bytes) → All IsByteKey ks → All (All (λ c. c < 256)) ks
All-bytes [] h = tt
All-bytes (k ∷ ks) h = (h.0.1, All-bytes ks h.1)

pub length-IsGroup : {ks : List Bytes} {n : ℕ} → IsGroup ks n → length ks < map_entries
length-IsGroup {ks} g =
    omega (
      arith,
      length-le-packed ks g.distinct (All-not_empty ks g.keys) (All-bytes ks g.keys),
      g.room,
    )

pub has_key-append :
    (j k : Bytes) (ks : List Bytes) → has_key j (ks ++ k ∷ []) ≡ (has_key j ks || bytes_eq j k)
unfolding has_key
has_key-append j k [] = ground arith
has_key-append j k (x ∷ ks) = ground (arith, has_key-append j k ks)

pub Distinct-append :
    (ks : List Bytes) (k : Bytes) → Distinct ks → has_key k ks ≡ false → Distinct (ks ++ k ∷ [])
unfolding has_key
Distinct-append [] k d h = (refl, tt)
Distinct-append (x ∷ ks) k d h =
    ground
      (arith, has_key-append x k ks, Distinct-append ks k d.1, bytes_eq_iff k x, bytes_eq_iff x k)

-- A key that is there already adds nothing.
has_key-old :
    (key : Bytes) (ks : List Bytes)
    → has_key key ks ≡ true
    → (j : Bytes) → has_key j ks ≡ (has_key j ks || bytes_eq j key)
has_key-old key ks old j = elim (Bool-cases (bytes_eq j key)) [
  | inl same ↦ rw (bytes_eq_sound j key same, old)
  | inr other ↦ rw other (ground arith)
]

-- Into a group of distinct keys of bytes, whose number of bytes is recorded and which takes at most
-- 1458 bytes with its separators, insert_ukey_group puts a key of bytes without writing past the
-- array: the group then has the key and the old keys, each once, a new key behind the old ones;
-- total_ukey_size is still the number of their bytes, and nothing else of the state changes.
pub insert_ukey_group_lem :
    {d : Dpdk} (s : State d) (key : Bytes)
    → IsGroup s.ukey s.total_ukey_size
    → IsByteKey key
    → (ks : List Bytes) × (n : ℕ) × (insert_ukey_group key s
        ≡ some (record s { ukey = ks; total_ukey_size = n }))
      × Distinct ks
      × All IsByteKey ks
      × (n + length ks ≡ packed ks)
      × ((j : Bytes) → has_key j ks ≡ (has_key j s.ukey || bytes_eq j key))
      × (ks ≡ (if has_key key s.ukey then s.ukey else s.ukey ++ key ∷ []))
unfolding insert_ukey_group
insert_ukey_group_lem s key g is =
    let fits : ltb (length s.ukey) map_entries ≡ true = lt→ltb _ _ (length-IsGroup g) in
    elim (Bool-cases (has_key key s.ukey)) [
      | inl old ↦ (
        s.ukey,
        s.total_ukey_size,
        rw old,
        g.distinct,
        g.keys,
        g.size_exact,
        has_key-old key s.ukey old,
        rw old,
      )
      | inr new ↦ (
        s.ukey ++ key ∷ [],
        s.total_ukey_size + length key,
        rw (new, fits)
            (ap (λ (n : ℕ). some (record s { ukey = s.ukey ++ key ∷ []; total_ukey_size = n }))
              (omega (arith, g.size_exact, g.room, is.0.short))),
        Distinct-append s.ukey key g.distinct new,
        All-append IsByteKey s.ukey (key ∷ []) g.keys (is, tt),
        omega
            (arith, g.size_exact, packed-append s.ukey (key ∷ []), length-append s.ukey (key ∷ [])),
        λ j. has_key-append j key s.ukey,
        rw new,
      )
    ]
