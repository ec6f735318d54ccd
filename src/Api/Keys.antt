-- ===== src/Api/Keys.antt =====
-- The key routines of middlebox/src/api.c: strip_keys, strip_key_value and construct_keys_packet.
-- A `char` buffer is its bytes before the terminator that was written last; `none` is a write past
-- the end of an array, which has no defined behaviour in C.
pub mod RoundTrip
pub mod Reply
pub mod Size
pub mod Short
pub mod Text
pub mod Words
use kernel_bypass_group_proj.Base.{
  ℕ, zero, suc, ◌+◌, Bytes, List, [], ◌∷◌, ◌++◌, Option, none, some, Bool, true, false, ◌&&◌, ◌||◌,
  ◌==◌, ltb, if◌then◌else◌, length, take, codes,
}
use kernel_bypass_group_proj.Config.{max_key_length, max_key_per_packet}

abbrev pub space : ℕ
space = b' '

-- What `strcpy`, `strlen` and `%s` read of a buffer.
unfoldable pub c_str : Bytes → Bytes
c_str [] = []
c_str (c ∷ s) = if c == 0 then [] else c ∷ c_str s

-- `buffer[j] = c; buffer[++j] = '\0';` on an array of MAX_KEY_LENGTH bytes
pub store_char : Bytes → ℕ → ℕ → Option Bytes
store_char buffer j c = if ltb (j + 1) max_key_length then some (take j buffer ++ c ∷ []) else none

-- `strcpy(keys[k], buffer);` where k keys are there already: it runs past the end of both arrays
-- where the MAX_KEY_LENGTH bytes of `buffer` have no terminator.
pub copy_key : List Bytes → Bytes → Option (List Bytes)
unfolding c_str
copy_key keys buffer =
    if ltb (length keys) max_key_per_packet && ltb (length (c_str buffer)) max_key_length
    then some (keys ++ c_str buffer ∷ [])
    else none

-- `while (i < payload_len && payload[i] != ' ') i++; i++;`: what is left behind the index
unfoldable pub skip_command : Bytes → Bytes
skip_command [] = []
skip_command (c ∷ s) = if c == space then s else skip_command s

-- The `for` loop of strip_keys, and the copy behind it.
pub split_keys : Bytes → Bytes → ℕ → List Bytes → Option (List Bytes)
split_keys [] buffer j keys = copy_key keys buffer
split_keys (c ∷ s) buffer j keys = elim (c == space) [
  | true ↦ elim (copy_key keys buffer) [ none ↦ none | some keys' ↦ split_keys s buffer 0 keys' ]
  | false ↦ elim (store_char buffer j c) [ none ↦ none | some b ↦ split_keys s b (j + 1) keys ]
]

-- `garbage` is what the uninitialised `buffer` holds.
unfoldable pub strip_keys : Bytes → Bytes → Option (List Bytes)
unfolding split_keys skip_command copy_key store_char
strip_keys garbage payload = split_keys (skip_command payload) garbage 0 []

starts_with : Bytes → Bytes → Bool
starts_with [] s = true
starts_with (p ∷ ps) [] = false
starts_with (p ∷ ps) (c ∷ s) = (p == c) && starts_with ps s

-- `strstr(s, pattern) != NULL`
unfoldable pub strstr : Bytes → Bytes → Bool
unfolding starts_with
strstr [] pattern = starts_with pattern []
strstr (c ∷ s) pattern = starts_with pattern (c ∷ s) || strstr s pattern

-- the `while` loop of strip_key_value, from index 6 + j on
pub read_key : Bytes → Bytes → ℕ → Option Bytes
unfolding store_char
read_key [] key j = some key
read_key (c ∷ s) key j = elim (c == space) [
  | true ↦ some key
  | false ↦ elim (store_char key j c) [ none ↦ none | some k ↦ read_key s k (j + 1) ]
]

abbrev pub drop : ℕ → Bytes → Bytes
drop zero s = s
drop (suc n) [] = []
drop (suc n) (c ∷ s) = drop n s

-- `text` is the C string at `payload`, `payload` its first `payload_len` bytes, and `key` what the
-- caller's array holds; the result is the returned flag and the array.
unfoldable pub strip_key_value : Bytes → Bytes → Bytes → Option (Bool × Bytes)
unfolding strstr read_key
strip_key_value key text payload =
    if strstr text (codes "VALUE")
    then elim (read_key (drop 6 payload) key 0) [ none ↦ none | some k ↦ some (true, k) ]
    else some (false, key)

-- `strcat(payload, " "); strcat(payload, keys[i]);` for each key
unfoldable pub append_keys : List Bytes → Bytes → Bytes
append_keys [] payload = payload
append_keys (k ∷ ks) payload = append_keys ks ((payload ++ codes " ") ++ k)

-- The size of the array `payload` is the caller's matter.
unfoldable pub construct_keys_packet : List Bytes → Bytes
unfolding append_keys
construct_keys_packet keys = append_keys keys (codes "gets")
