-- ===== src/Utils/EthAddr.antt =====
-- middlebox/src/utils.c, str_to_eth_addr. `%hhx` skips white space, takes a sign and a `0x`, and
-- reduces the value modulo 256; the digits of a number are not cut off at the range of `long`.
use kernel_bypass_group_proj.Base.{
  ℕ, ◌+◌, ◌-◌, ◌*◌, ◌/◌, ◌%◌, ◌<◌, ◌≡◌, refl, sym, ◌∙◌, ap, append-nil, Bytes, [], ◌∷◌, ◌++◌,
  Option, none, some, false, arith, ◌==◌, ◌&&◌, ◌||◌, leb, ltb, Bool-cases, inl, inr, ◌≤◌,
  if◌then◌else◌, get_or, All,
}
use kernel_bypass_group_proj.Base.Int.{ℤ, pos, negsuc}
use kernel_bypass_group_proj.Base.Results.{◌>>=◌}
use kernel_bypass_group_proj.Mem.{Mem, memcpy}
use kernel_bypass_group_proj.Utils.{is_space, negate}
use kernel_bypass_group_proj.Utils.Dump.{hex_digit, hex}

-- the value of a hexadecimal digit
hex_value : ℕ → Option ℕ
hex_value c =
    if leb b'0' c && leb c b'9'
    then some (c - b'0')
    else if leb b'a' c && leb c b'f'
    then some (c - b'a' + 10)
    else if leb b'A' c && leb c b'F'
    then some (c - b'A' + 10)
    else none

-- the value of the digits at the front, behind the value `n`, and what follows them
read_hex : Bytes → ℕ → ℕ × Bytes
unfolding hex_value
read_hex [] n = (n, [])
read_hex (c ∷ s) n = elim (hex_value c) [ none ↦ (n, c ∷ s) | some v ↦ read_hex s (n * 16 + v) ]

-- at least one digit, reduced to `unsigned char`
scan_hex : Bytes → Option (ℕ × Bytes)
unfolding read_hex
scan_hex [] = none
scan_hex (c ∷ s) = elim (hex_value c) [
  | none ↦ none
  | some v ↦ (let (n, r) = read_hex s v in some (n % 256, r))
]

-- the digits, behind a `0x` if there is one
scan_prefix : Bytes → Option (ℕ × Bytes)
unfolding scan_hex
scan_prefix [] = none
scan_prefix (c ∷ []) = scan_hex (c ∷ [])
scan_prefix (c ∷ x ∷ s) =
    if c == b'0' && (x == b'x' || x == b'X') then scan_hex s else scan_hex (c ∷ x ∷ s)

-- `%hhx` behind the white space: with or without a sign
scan_hhx_sign : Bytes → Option (ℕ × Bytes)
unfolding scan_prefix negate
scan_hhx_sign [] = none
scan_hhx_sign (c ∷ s) =
    if c == b'+'
    then scan_prefix s
    else if c == b'-'
    then negate (scan_prefix s)
    else scan_prefix (c ∷ s)

scan_hhx : Bytes → Option (ℕ × Bytes)
unfolding scan_hhx_sign is_space
scan_hhx [] = none
scan_hhx (c ∷ s) = if is_space c then scan_hhx s else scan_hhx_sign (c ∷ s)

-- the `:` of the format
scan_colon : Bytes → Option Bytes
scan_colon [] = none
scan_colon (c ∷ s) = if c == b':' then some s else none

-- `sscanf(src, "%hhx:%hhx:%hhx:%hhx:%hhx:%hhx", ...)`, where it converts all six
scan_six : Bytes → Option Bytes
unfolding scan_hhx scan_colon
scan_six s = do
  (a, s) ← scan_hhx s
  s ← scan_colon s
  (b, s) ← scan_hhx s
  s ← scan_colon s
  (c, s) ← scan_hhx s
  s ← scan_colon s
  (e, s) ← scan_hhx s
  s ← scan_colon s
  (f, s) ← scan_hhx s
  s ← scan_colon s
  (g, s) ← scan_hhx s
  some (a ∷ b ∷ c ∷ e ∷ f ∷ g ∷ [])

-- `negsuc 21` is -EINVAL.
unfoldable pub str_to_eth_addr : Bytes → Mem → ℤ × Mem
unfolding scan_six
str_to_eth_addr src dst = elim (scan_six src) [
  | none ↦ (negsuc 21, dst)
  | some tmp ↦ (pos 0, memcpy dst 0 (λ i. get_or tmp i 0) 6)
]

-- a place where a number ends: the end of the text, or a colon
data Ends : Bytes → Type 0 where
  nil : Ends []
  colon : (s : Bytes) → Ends (b':' ∷ s)

hex_value-hex_digit : (n : ℕ) → n < 16 → hex_value (hex_digit n) ≡ some n
unfolding hex_value hex_digit
hex_value-hex_digit n h = ground arith

hex_digit_ge : (n : ℕ) → 48 ≤ hex_digit n
unfolding hex_digit
hex_digit_ge n = ground arith

hex_digit_x : (n : ℕ) → n < 16 → (hex_digit n == b'x' || hex_digit n == b'X') ≡ false
unfolding hex_digit
hex_digit_x n h = ground arith

read_hex-Ends : (n : ℕ) (s : Bytes) → Ends s → read_hex s n ≡ (n, s)
unfolding read_hex hex_value
read_hex-Ends n s nil = refl
read_hex-Ends n s (colon s') = refl

scan_hex-one : (n : ℕ) (s : Bytes) → n < 16 → Ends s → scan_hex (hex_digit n ∷ s) ≡ some (n, s)
unfolding scan_hex
scan_hex-one n s h e =
    rw (scan_hex, hex_value-hex_digit n h, read_hex-Ends n s e)
      (ap (λ (k : ℕ). some (k, s)) (omega (arith, h)))

scan_hex-two :
    (a b : ℕ) (s : Bytes)
    → a < 16
    → b < 16
    → Ends s
    → scan_hex (hex_digit a ∷ hex_digit b ∷ s) ≡ some (a * 16 + b, s)
unfolding scan_hex read_hex
scan_hex-two a b s ha hb e =
    rw
      (
        scan_hex,
        hex_value-hex_digit a ha,
        read_hex,
        hex_value-hex_digit b hb,
        read_hex-Ends (a * 16 + b) s e,
      )
      (ap (λ (k : ℕ). some (k, s)) (omega (arith, ha, hb)))

scan_prefix-one : (c : ℕ) (s : Bytes) → Ends s → scan_prefix (c ∷ s) ≡ scan_hex (c ∷ s)
unfolding scan_prefix
scan_prefix-one c s nil = refl
scan_prefix-one c s (colon s') = ground arith

scan_prefix-two :
    (c x : ℕ) (s : Bytes)
    → (x == b'x' || x == b'X') ≡ false
    → scan_prefix (c ∷ x ∷ s) ≡ scan_hex (c ∷ x ∷ s)
unfolding scan_prefix
scan_prefix-two c x s ne = ground arith

scan_hhx-prefix : (c : ℕ) (s : Bytes) → 48 ≤ c → scan_hhx (c ∷ s) ≡ scan_prefix (c ∷ s)
unfolding scan_hhx scan_hhx_sign is_space
scan_hhx-prefix c s h = ground arith

scan_hhx-hex : (n : ℕ) (s : Bytes) → n < 256 → Ends s → scan_hhx (hex n ++ s) ≡ some (n, s)
unfolding hex
scan_hhx-hex n s h e = elim (Bool-cases (ltb n 16)) [
  | inl one ↦ rw one (
      scan_hhx-prefix _ s (hex_digit_ge n)
      ∙ scan_prefix-one _ s e
      ∙ scan_hex-one n s (ground arith) e)
  | inr two ↦ rw two (
      scan_hhx-prefix _ _ (hex_digit_ge (n / 16))
      ∙ scan_prefix-two _ _ s (hex_digit_x (n % 16) (omega arith))
      ∙ scan_hex-two (n / 16) (n % 16) s (omega (arith, h)) (omega arith) e
      ∙ ap (λ (k : ℕ). some (k, s)) (omega arith))
]

-- six bytes as hexadecimal numbers with colons between them
abbrev pub colons : ℕ → ℕ → ℕ → ℕ → ℕ → ℕ → Bytes
colons a b c e f g =
    hex a ++ b':' ∷ (hex b ++ b':' ∷ (hex c ++ b':' ∷ (hex e ++ b':' ∷ (hex f ++ b':' ∷ hex g))))

scan_six-colons :
    (a b c e f g : ℕ)
    → All (λ n. n < 256) (a ∷ b ∷ c ∷ e ∷ f ∷ g ∷ [])
    → scan_six (colons a b c e f g) ≡ some (a ∷ b ∷ c ∷ e ∷ f ∷ g ∷ [])
unfolding scan_six scan_colon
scan_six-colons a b c e f g (ha, (hb, (hc, (he, (hf, (hg, _)))))) =
    let last : scan_hhx (hex g) ≡ some (g, []) =
      ap scan_hhx (sym (append-nil (hex g))) ∙ scan_hhx-hex g [] hg nil in
    let after_e = hex f ++ b':' ∷ hex g in
    let after_c = hex e ++ b':' ∷ after_e in
    let after_b = hex c ++ b':' ∷ after_c in
    rw (
      scan_hhx-hex a (b':' ∷ (hex b ++ b':' ∷ after_b)) ha (colon _),
      scan_hhx-hex b (b':' ∷ after_b) hb (colon _),
      scan_hhx-hex c (b':' ∷ after_c) hc (colon _),
      scan_hhx-hex e (b':' ∷ after_e) he (colon _),
      scan_hhx-hex f (b':' ∷ hex g) hf (colon _),
      last,
    )

-- For six bytes, written with one or two hexadecimal digits each and colons between them,
-- str_to_eth_addr returns 0 and writes these bytes, in this order, to the first six of the
-- destination.
pub str_to_eth_addr-colons :
    (a b c e f g : ℕ) (dst : Mem)
    → All (λ n. n < 256) (a ∷ b ∷ c ∷ e ∷ f ∷ g ∷ [])
    → str_to_eth_addr (colons a b c e f g) dst
      ≡ (pos 0, memcpy dst 0 (λ i. get_or (a ∷ b ∷ c ∷ e ∷ f ∷ g ∷ []) i 0) 6)
unfolding str_to_eth_addr
str_to_eth_addr-colons a b c e f g dst h = rw (str_to_eth_addr, scan_six-colons a b c e f g h) refl
