-- ===== src/Api/Signature.antt =====
-- `sprintf(key_hold, "%u-%s", request_id, key)` of middlebox/src/api.c: the key of the hash table.
use kernel_bypass_group_proj.Base.{
  ℕ, zero, suc, ◌+◌, ◌-◌, ◌*◌, ◌/◌, ◌%◌, ◌^◌, ◌<◌, ◌≡◌, refl, sym, ◌∙◌, ap, Bytes, [], ◌∷◌, ◌++◌,
  Option, none, some, arith, ◌==◌, ltb, if◌then◌else◌, length, length-append, append_assoc, inl,
  inr, Bool-cases, ◌≤◌,
}
use kernel_bypass_group_proj.Config.{max_key_length}
use native.Mathlib.Nat.{pow-suc}

-- The decimal digits of a number; `rounds` is at least the number of digits less one.
show_digits : ℕ → ℕ → Bytes
show_digits zero n = (b'0' + n % 10) ∷ []
show_digits (suc rounds) n =
    if ltb n 10 then (b'0' + n) ∷ [] else show_digits rounds (n / 10) ++ (b'0' + n % 10) ∷ []

-- `%u` of a `uint16_t`, which has at most five digits
pub show_u16 : ℕ → Bytes
unfolding show_digits
show_u16 = show_digits 4

unfoldable pub signature : ℕ → Bytes → Bytes
unfolding show_u16
signature request_id key = show_u16 request_id ++ b'-' ∷ key

-- `none` is an overflow of `key_hold`.
unfoldable pub print_signature : ℕ → Bytes → Option Bytes
unfolding signature
print_signature request_id key =
    if ltb (length (signature request_id key)) max_key_length
    then some (signature request_id key)
    else none

-- the number that digits spell behind `n`, and what follows the dash
read_number : Bytes → ℕ → ℕ × Bytes
read_number [] n = (n, [])
read_number (c ∷ s) n = if c == b'-' then (n, s) else read_number s (n * 10 + (c - b'0'))

read_number-show_digits :
    (rounds n : ℕ) (rest : Bytes)
    → n < 10 ^ (suc rounds)
    → read_number (show_digits rounds n ++ rest) 0 ≡ read_number rest n
unfolding read_number show_digits
read_number-show_digits zero n rest h = ground arith
read_number-show_digits (suc rounds) n rest h = elim (Bool-cases (ltb n 10)) [
  | inl small ↦ ground arith
  | inr big ↦
      rw (big, append_assoc (show_digits rounds (n / 10)) ((b'0' + n % 10) ∷ []) rest)
        (read_number-show_digits rounds (n / 10) ((b'0' + n % 10) ∷ rest)
            (omega (arith, pow-suc 10 (suc rounds)))
          ∙ ground arith)
]

read_number-signature :
    (r : ℕ) (key : Bytes) → r < 2 ^ 16 → read_number (signature r key) 0 ≡ (r, key)
unfolding signature
read_number-signature r key h =
    read_number-show_digits 4 r (b'-' ∷ key) (omega arith) ∙ unfold read_number in refl

-- Two signatures, of 16-bit request ids, are the same text only if both the request ids and the keys
-- are the same.
pub signature_injective :
    (r r' : ℕ) (key key' : Bytes)
    → r < 2 ^ 16
    → r' < 2 ^ 16
    → signature r key ≡ signature r' key'
    → (r ≡ r') × (key ≡ key')
signature_injective r r' key key' h h' e =
    let both : (r, key) ≡ (r', key') =
      sym (read_number-signature r key h)
      ∙ ap (λ (s : Bytes). read_number s 0) e
      ∙ read_number-signature r' key' h' in
    (ap (λ (q : ℕ × Bytes). q.0) both, ap (λ (q : ℕ × Bytes). q.1) both)

pub print_signature-some :
    (r : ℕ) (key : Bytes)
    → length (signature r key) < max_key_length
    → print_signature r key ≡ some (signature r key)
unfolding print_signature
print_signature-some r key h = ground arith

length-show_digits : (rounds n : ℕ) → length (show_digits rounds n) ≤ suc rounds
unfolding show_digits
length-show_digits zero n = omega arith
length-show_digits (suc rounds) n = elim (Bool-cases (ltb n 10)) [
  | inl small ↦ rw small (omega arith)
  | inr big ↦ rw big (
      omega (
        arith,
        length-append (show_digits rounds (n / 10)) ((b'0' + n % 10) ∷ []),
        length-show_digits rounds (n / 10),
      ))
]

-- at most five digits and the dash
pub length-signature : (r : ℕ) (key : Bytes) → length (signature r key) ≤ 6 + length key
unfolding signature
length-signature r key =
    omega (arith, length-append (show_digits 4 r) (b'-' ∷ key), length-show_digits 4 r)
