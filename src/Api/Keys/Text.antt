-- ===== src/Api/Keys/Text.antt =====
-- The texts that the key routines and snprintf make are bytes: strip_keys, construct_keys_packet.
use kernel_bypass_group_proj.Base.{
  ℕ, zero, suc, ◌+◌, ◌<◌, inl, inr, Bytes, List, [], ◌∷◌, ◌++◌, ◌==◌, ◌&&◌, arith, ltb, Bool-cases,
  length, take, All, All-append, take-All, codes,
}
use kernel_bypass_group_proj.Base.Results.{Ensures, fails, gives, follow_elim}
use kernel_bypass_group_proj.Config.{max_key_length, max_key_per_packet}
use kernel_bypass_group_proj.Mem.{Mem, slice}
use kernel_bypass_group_proj.Api.Keys.{
  space, c_str, store_char, copy_key, skip_command, split_keys, strip_keys, append_keys,
  construct_keys_packet,
}
use kernel_bypass_group_proj.Typed.{AreBytes, IsByteText}

c_str-IsByteText : (s : Bytes) → IsByteText s → IsByteText (c_str s)
unfolding c_str
c_str-IsByteText [] h = tt
c_str-IsByteText (c ∷ s) h = elim (Bool-cases (c == 0)) [
  | inl end ↦ rw (c_str, end) tt
  | inr more ↦ rw (c_str, more) (h.0, c_str-IsByteText s h.1)
]

pub slice-IsByteText : (m : Mem) (o n : ℕ) → AreBytes m → IsByteText (slice m o n)
slice-IsByteText m o zero h = tt
slice-IsByteText m o (suc n) h = (h o, slice-IsByteText m (o + 1) n h)

skip_command-IsByteText : (s : Bytes) → IsByteText s → IsByteText (skip_command s)
unfolding skip_command
skip_command-IsByteText [] h = tt
skip_command-IsByteText (c ∷ s) h = elim (Bool-cases (c == space)) [
  | inl gap ↦ rw (skip_command, gap) h.1
  | inr char ↦ rw (skip_command, char) (skip_command-IsByteText s h.1)
]

copy_key-IsByteText :
    (keys : List Bytes) (buffer : Bytes)
    → All IsByteText keys
    → IsByteText buffer
    → Ensures (All IsByteText) (copy_key keys buffer)
unfolding copy_key
copy_key-IsByteText keys buffer hs h =
    elim (Bool-cases
      (ltb (length keys) max_key_per_packet && ltb (length (c_str buffer)) max_key_length)) [
        | inl fits ↦ rw fits (
            gives
              (All-append IsByteText keys (c_str buffer ∷ []) hs (c_str-IsByteText buffer h, tt)))
        | inr over ↦ rw over fails
      ]

store_char-IsByteText :
    (buffer : Bytes) (j c : ℕ)
    → IsByteText buffer
    → c < 256
    → Ensures IsByteText (store_char buffer j c)
unfolding store_char
store_char-IsByteText buffer j c h b = elim (Bool-cases (ltb (j + 1) max_key_length)) [
  | inl fits ↦
      rw fits (gives (All-append _ (take j buffer) (c ∷ []) (take-All _ j buffer h) (b, tt)))
  | inr over ↦ rw over fails
]

split_keys-IsByteText :
    (s buffer : Bytes) (j : ℕ) (keys : List Bytes)
    → IsByteText s
    → IsByteText buffer
    → All IsByteText keys
    → Ensures (All IsByteText) (split_keys s buffer j keys)
unfolding split_keys
split_keys-IsByteText [] buffer j keys t h hs = copy_key-IsByteText keys buffer hs h
split_keys-IsByteText (c ∷ s) buffer j keys t h hs = elim (Bool-cases (c == space)) [
  | inl gap ↦
      rw (split_keys, gap)
        (follow_elim _ (copy_key-IsByteText keys buffer hs h)
          (λ ks hs'. split_keys-IsByteText s buffer 0 ks t.1 h hs'))
  | inr char ↦
      rw (split_keys, char)
        (follow_elim _ (store_char-IsByteText buffer j c h t.0)
          (λ b h'. split_keys-IsByteText s b (j + 1) keys t.1 h' hs))
]

pub strip_keys-IsByteText :
    (garbage payload : Bytes)
    → IsByteText garbage
    → IsByteText payload
    → Ensures (All IsByteText) (strip_keys garbage payload)
unfolding strip_keys
strip_keys-IsByteText garbage payload h t =
    split_keys-IsByteText (skip_command payload) garbage 0 [] (skip_command-IsByteText payload t) h
      tt

append_keys-IsByteText :
    (ks : List Bytes) (p : Bytes) → All IsByteText ks → IsByteText p → IsByteText (append_keys ks p)
unfolding append_keys
append_keys-IsByteText [] p hs h = h
append_keys-IsByteText (k ∷ ks) p hs h =
    append_keys-IsByteText ks _ hs.1
      (All-append _ (p ++ codes " ") k (All-append _ p (codes " ") h (ground arith)) hs.0)

pub construct_keys_packet-IsByteText :
    (ks : List Bytes) → All IsByteText ks → IsByteText (construct_keys_packet ks)
unfolding construct_keys_packet
construct_keys_packet-IsByteText ks hs = append_keys-IsByteText ks (codes "gets") hs (ground arith)
