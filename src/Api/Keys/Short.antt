-- ===== src/Api/Keys/Short.antt =====
-- The keys that strip_keys gives fit the rows of the arrays that they are copied to.
use kernel_bypass_group_proj.Base.{
  ℕ, zero, suc, ◌+◌, ◌≤◌, ◌<◌, inl, inr, Bytes, List, [], ◌∷◌, ◌++◌, ◌==◌, ◌&&◌, arith, ltb, ltb→lt,
  Bool-cases, length, length-append, take, All, All-append,
}
use kernel_bypass_group_proj.Base.Results.{Ensures, fails, gives, follow_elim}
use kernel_bypass_group_proj.Config.{max_key_length, max_key_per_packet}
use kernel_bypass_group_proj.Api.Keys.{
  space, c_str, store_char, copy_key, skip_command, split_keys, strip_keys,
}

abbrev pub IsShort : Bytes → Type 0
IsShort k = length k < max_key_length

length-c_str : (s : Bytes) → length (c_str s) ≤ length s
unfolding c_str
length-c_str [] = omega arith
length-c_str (c ∷ s) = ground (arith, length-c_str s)

length-take : (n : ℕ) (s : Bytes) → length (take n s) ≤ n
length-take zero s = omega arith
length-take (suc n) [] = omega arith
length-take (suc n) (c ∷ s) = omega (arith, length-take n s)

copy_key-IsShort :
    (keys : List Bytes) (buffer : Bytes)
    → All IsShort keys
    → IsShort (c_str buffer)
    → Ensures (All IsShort) (copy_key keys buffer)
unfolding copy_key
copy_key-IsShort keys buffer short last =
    elim (Bool-cases
      (ltb (length keys) max_key_per_packet && ltb (length (c_str buffer)) max_key_length)) [
        | inl fits ↦ rw fits (gives (All-append IsShort keys (c_str buffer ∷ []) short (last, tt)))
        | inr over ↦ rw over fails
      ]

store_char-IsShort :
    (buffer : Bytes) (j c : ℕ) → Ensures (λ b. IsShort (c_str b)) (store_char buffer j c)
unfolding store_char
store_char-IsShort buffer j c = elim (Bool-cases (ltb (j + 1) max_key_length)) [
  | inl fits ↦ rw fits (
      gives (
        omega (
          arith,
          length-c_str (take j buffer ++ c ∷ []),
          length-append (take j buffer) (c ∷ []),
          length-take j buffer,
          ltb→lt _ _ fits,
        )))
  | inr over ↦ rw over fails
]

split_keys-IsShort :
    (s buffer : Bytes) (j : ℕ) (keys : List Bytes)
    → All IsShort keys
    → IsShort (c_str buffer)
    → Ensures (All IsShort) (split_keys s buffer j keys)
unfolding split_keys
split_keys-IsShort [] buffer j keys short last = copy_key-IsShort keys buffer short last
split_keys-IsShort (c ∷ s) buffer j keys short last = elim (Bool-cases (c == space)) [
  | inl gap ↦
      rw (split_keys, gap)
        (follow_elim _ (copy_key-IsShort keys buffer short last)
          (λ ks short'. split_keys-IsShort s buffer 0 ks short' last))
  | inr char ↦
      rw (split_keys, char)
        (follow_elim _ (store_char-IsShort buffer j c)
          (λ b last'. split_keys-IsShort s b (j + 1) keys short last'))
]

-- Every key that strip_keys gives is shorter than its row, if what the uninitialised buffer held
-- is.
pub strip_keys-IsShort :
    (garbage payload : Bytes)
    → length (c_str garbage) < max_key_length
    → Ensures (All IsShort) (strip_keys garbage payload)
unfolding strip_keys
strip_keys-IsShort garbage payload h = split_keys-IsShort (skip_command payload) garbage 0 [] tt h
