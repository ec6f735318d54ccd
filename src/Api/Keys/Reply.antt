-- ===== src/Api/Keys/Reply.antt =====
-- strip_key_value on replies: the key that a reply names is the key that was asked for.
use kernel_bypass_group_proj.Base.{
  false, ℕ, ◌+◌, ◌<◌, ◌≡◌, ◌≢◌, refl, ◌∙◌, ap, Bytes, [], ◌∷◌, ◌++◌, append_assoc, append-nil, some,
  true, arith, length, length-append, take-length, take, codes,
}
use kernel_bypass_group_proj.Config.{max_key_length}
use kernel_bypass_group_proj.Api.Keys.{space, store_char, read_key, strstr, strip_key_value}
use kernel_bypass_group_proj.Api.Keys.RoundTrip.{IsWord, IsKey}

read_key-cons :
    (c : ℕ) (s b : Bytes) (j : ℕ)
    → c ≢ space
    → j + 1 < max_key_length
    → read_key (c ∷ s) b j ≡ read_key s (take j b ++ c ∷ []) (j + 1)
unfolding read_key store_char
read_key-cons c s b j ne h = ground arith

read_key-append :
    (k rest b : Bytes) (j : ℕ)
    → length b ≡ j
    → IsWord k
    → j + length k < max_key_length
    → read_key (k ++ space ∷ rest) b j ≡ some (b ++ k)
read_key-append [] rest b j e w h = unfold read_key in rw append-nil
read_key-append (c ∷ k) rest b j e w h =
    read_key-cons c (k ++ space ∷ rest) b j w.0.0 (omega arith)
    ∙ ap (λ (t : Bytes). read_key (k ++ space ∷ rest) (t ++ c ∷ []) (j + 1))
        (rw (← e) (take-length b))
    ∙ read_key-append k rest (b ++ c ∷ []) (j + 1) (omega (arith, length-append b (c ∷ []))) w.1
        (omega arith)
    ∙ ap some (append_assoc b (c ∷ []) k)

read_key-key :
    (k rest b : Bytes)
    → k ≢ []
    → IsWord k
    → length k < max_key_length
    → read_key (k ++ space ∷ rest) b 0 ≡ some k
read_key-key [] rest b ne w h = absurd (ne refl)
read_key-key (c ∷ k) rest b ne w h =
    read_key-cons c (k ++ space ∷ rest) b 0 w.0.0 (omega arith)
    ∙ read_key-append k rest (c ∷ []) 1 refl w.1 (omega arith)

-- On a datagram that begins with VALUE, a space, a word of 1 to MAX_KEY_LENGTH - 1 bytes and a
-- space, strip_key_value says that there is a key and gives that word, whatever follows it and
-- whatever its array held.
pub strip_key_value_lem :
    (array k rest text : Bytes)
    → IsKey k
    → strip_key_value array (codes "VALUE " ++ text) (codes "VALUE " ++ (k ++ space ∷ rest))
      ≡ some (true, k)
unfolding strip_key_value strstr
strip_key_value_lem array k rest text is =
    rw (read_key-key k rest array is.not_empty is.word is.short)

-- On a datagram with no VALUE in its text strip_key_value says that there is no key.
pub strip_key_value-missing :
    (array text payload : Bytes)
    → strstr text (codes "VALUE") ≡ false
    → strip_key_value array text payload ≡ some (false, array)
unfolding strip_key_value
strip_key_value-missing array text payload e = rw e
