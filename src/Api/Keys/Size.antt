-- ===== src/Api/Keys/Size.antt =====
-- How long the text of construct_keys_packet is.
use kernel_bypass_group_proj.Base.{
  ℕ, suc, ◌+◌, ◌≡◌, Bytes, List, [], ◌∷◌, ◌++◌, arith, length, length-append, codes,
}
use kernel_bypass_group_proj.Api.Keys.{append_keys, construct_keys_packet}

-- the bytes of the keys, with a separator for each
abbrev pub packed : List Bytes → ℕ
packed [] = 0
packed (k ∷ ks) = suc (length k) + packed ks

length-append_keys :
    (ks : List Bytes) (p : Bytes) → length (append_keys ks p) ≡ length p + packed ks
unfolding append_keys
length-append_keys [] p = omega arith
length-append_keys (k ∷ ks) p = omega (
  arith,
  length-append_keys ks ((p ++ codes " ") ++ k),
  length-append (p ++ codes " ") k,
  length-append p (codes " "),
)

pub length-construct_keys_packet :
    (ks : List Bytes) → length (construct_keys_packet ks) ≡ 4 + packed ks
unfolding construct_keys_packet
length-construct_keys_packet ks = length-append_keys ks (codes "gets")

pub packed-append : (ks ls : List Bytes) → packed (ks ++ ls) ≡ packed ks + packed ls
packed-append [] ls = omega arith
packed-append (k ∷ ks) ls = omega (arith, packed-append ks ls)
