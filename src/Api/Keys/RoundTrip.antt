-- ===== src/Api/Keys/RoundTrip.antt =====
-- strip_keys against construct_keys_packet: a merged request is read back as its keys.
use mathlib.Core.List.{flat_map}
use kernel_bypass_group_proj.Base.{
  ltb, true, ℕ, ◌+◌, ◌≤◌, ◌<◌, ◌≡◌, ◌≢◌, refl, sym, ◌∙◌, ap, ap₂, Bytes, List, [], ◌∷◌, ◌++◌,
  append_assoc, append-nil, some, arith, length, length-append, take-length, take, All, codes,
}
use kernel_bypass_group_proj.Config.{max_key_length, max_key_per_packet}
use kernel_bypass_group_proj.Api.Keys.{
  space, c_str, store_char, copy_key, skip_command, split_keys, strip_keys, append_keys,
  construct_keys_packet,
}
use native.Mathlib.Nat.{add-zero}

-- no byte that ends a word or a C string
abbrev pub IsWord : Bytes → Type 0
IsWord = All (λ c. (c ≢ space) × (c ≢ 0))

-- A key as clients send it: not empty, one word, and short enough for the key arrays.
pub record IsKey (k : Bytes) : Type 0 where
  pub not_empty : k ≢ []
  pub word : IsWord k
  pub short : length k < max_key_length

-- A key behind its space.
abbrev pub spaced : Bytes → Bytes
spaced k = space ∷ k

pub append_keys-flat_map :
    (ks : List Bytes) (p : Bytes) → append_keys ks p ≡ p ++ flat_map spaced ks
unfolding append_keys flat_map
append_keys-flat_map [] p = sym (append-nil p)
append_keys-flat_map (k ∷ ks) p =
    append_keys-flat_map ks ((p ++ codes " ") ++ k)
    ∙ append_assoc (p ++ codes " ") k _
    ∙ append_assoc p (codes " ") _

pub c_str-IsWord : (k : Bytes) → IsWord k → c_str k ≡ k
unfolding c_str
c_str-IsWord [] h = refl
c_str-IsWord (c ∷ k) h = ground (arith, c_str-IsWord k h.1)

-- A byte of a word goes behind the bytes that the loop has written since the last space.
split_keys-cons :
    (c : ℕ) (s b : Bytes) (j : ℕ) (keys : List Bytes)
    → c ≢ space
    → j + 1 < max_key_length
    → split_keys (c ∷ s) b j keys ≡ split_keys s (take j b ++ c ∷ []) (j + 1) keys
unfolding split_keys store_char
split_keys-cons c s b j keys ne h = ground arith

-- The loop copies the rest of a word behind what the buffer holds of it.
split_keys-append :
    (k rest b : Bytes) (j : ℕ) (keys : List Bytes)
    → length b ≡ j
    → IsWord k
    → j + length k < max_key_length
    → split_keys (k ++ rest) b j keys ≡ split_keys rest (b ++ k) (j + length k) keys
split_keys-append [] rest b j keys e w h = rw (append-nil, add-zero)
split_keys-append (c ∷ k) rest b j keys e w h =
    split_keys-cons c (k ++ rest) b j keys w.0.0 (omega arith)
    ∙ ap (λ (t : Bytes). split_keys (k ++ rest) (t ++ c ∷ []) (j + 1) keys)
        (rw (← e) (take-length b))
    ∙ split_keys-append k rest (b ++ c ∷ []) (j + 1) keys (omega (arith, length-append b (c ∷ [])))
        w.1 (omega arith)
    ∙ ap₂ (λ (t : Bytes) (n : ℕ). split_keys rest t n keys) (append_assoc b (c ∷ []) k)
        (omega arith)

-- Behind a space a whole key ends up in the buffer, whatever was there before.
split_keys-key :
    {k : Bytes} (rest b : Bytes) (keys : List Bytes)
    → IsKey k
    → split_keys (k ++ rest) b 0 keys ≡ split_keys rest k (length k) keys
split_keys-key {k} rest b keys is = go k is.not_empty is.word is.short
  where
    go :
        (k : Bytes)
        → k ≢ []
        → IsWord k
        → length k < max_key_length
        → split_keys (k ++ rest) b 0 keys ≡ split_keys rest k (length k) keys
    go [] ne w h = absurd (ne refl)
    go (c ∷ k) ne w h =
        split_keys-cons c (k ++ rest) b 0 keys w.0.0 (omega arith)
        ∙ split_keys-append k rest (c ∷ []) 1 keys refl w.1 (omega arith)
        ∙ ap (λ (n : ℕ). split_keys rest (c ∷ k) n keys) (omega arith)

copy_key-IsKey :
    (keys : List Bytes) (k : Bytes)
    → IsKey k
    → length keys < max_key_per_packet
    → copy_key keys k ≡ some (keys ++ k ∷ [])
unfolding copy_key
copy_key-IsKey keys k is h =
    let fits : ltb (length k) max_key_length ≡ true = ground (arith, is.short) in
    let room : ltb (length keys) max_key_per_packet ≡ true = ground (arith, h) in
    rw (c_str-IsWord k is.word, fits, room) refl

split_keys-space :
    (s k : Bytes) (j : ℕ) (keys : List Bytes)
    → IsKey k
    → length keys < max_key_per_packet
    → split_keys (space ∷ s) k j keys ≡ split_keys s k 0 (keys ++ k ∷ [])
unfolding split_keys
split_keys-space s k j keys is h = rw (split_keys, copy_key-IsKey keys k is h)

split_keys-flat_map :
    (k : Bytes) (ks : List Bytes) (b : Bytes) (keys : List Bytes)
    → All IsKey (k ∷ ks)
    → length keys + length (k ∷ ks) ≤ max_key_per_packet
    → split_keys (k ++ flat_map spaced ks) b 0 keys ≡ some (keys ++ k ∷ ks)
unfolding flat_map
split_keys-flat_map k [] b keys is h =
    split_keys-key [] b keys is.0 ∙ unfold split_keys in copy_key-IsKey keys k is.0 (omega arith)
split_keys-flat_map k (k' ∷ ks) b keys is h =
    split_keys-key _ b keys is.0
    ∙ split_keys-space _ k (length k) keys is.0 (omega arith)
    ∙ split_keys-flat_map k' ks k (keys ++ k ∷ []) is.1 (omega (arith, length-append keys (k ∷ [])))
    ∙ ap some (append_assoc keys (k ∷ []) (k' ∷ ks))

skip_command-gets : (s : Bytes) → skip_command (codes "gets" ++ space ∷ s) ≡ s
unfolding skip_command
skip_command-gets s = refl

-- What construct_keys_packet writes for one to MAX_KEY_PER_PACKET keys, each a word of 1 to
-- MAX_KEY_LENGTH - 1 bytes, strip_keys reads back as those keys in order, whatever its uninitialised
-- buffer held.
pub strip_keys-construct_keys_packet :
    (garbage : Bytes) (keys : List Bytes)
    → keys ≢ []
    → All IsKey keys
    → length keys ≤ max_key_per_packet
    → strip_keys garbage (construct_keys_packet keys) ≡ some keys
unfolding flat_map
strip_keys-construct_keys_packet garbage [] ne is h = absurd (ne refl)
strip_keys-construct_keys_packet garbage (k ∷ ks) ne is h =
    unfold strip_keys construct_keys_packet in
    rw (append_keys-flat_map (k ∷ ks) (codes "gets"))
      (split_keys-flat_map k ks garbage [] is (omega arith))
