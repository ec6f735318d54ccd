-- ===== src/Utils.antt =====
-- middlebox/src/utils.c: addresses as text and as numbers. `sscanf` and `snprintf` are modelled as
-- far as the format strings of the file use them: `%hhu` skips white space, takes a sign, and
-- reduces the value modulo 256; the digits of a number are not cut off at the range of `long`.
pub mod Text
pub mod Dump
pub mod EthAddr
use kernel_bypass_group_proj.Base.Results.{◌>>=◌}
use kernel_bypass_group_proj.Base.{
  ℕ, suc, ◌+◌, ◌-◌, ◌*◌, ◌/◌, ◌%◌, ◌^◌, Bytes, [], ◌∷◌, ◌++◌, Option, none, some, Bool, true, false,
  ◌&&◌, ◌||◌, ◌==◌, ltb, leb, if◌then◌else◌, take, codes,
}
use kernel_bypass_group_proj.Config.{local_ip_text, local_mac_text}
use kernel_bypass_group_proj.Dpdk.{Dpdk}
use kernel_bypass_group_proj.Mem.{Mem}

is_digit : ℕ → Bool
is_digit c = leb b'0' c && leb c b'9'

unfoldable pub is_space : ℕ → Bool
is_space c = c == b' ' || (leb 9 c && leb c 13)

-- the value of the digits at the front, behind the value `n`, and what follows them
read_digits : Bytes → ℕ → ℕ × Bytes
unfolding is_digit
read_digits [] n = (n, [])
read_digits (c ∷ s) n = if is_digit c then read_digits s (n * 10 + (c - b'0')) else (n, c ∷ s)

-- at least one digit, reduced to `unsigned char`
scan_digits : Bytes → Option (ℕ × Bytes)
unfolding read_digits
scan_digits [] = none
scan_digits (c ∷ s) =
    if is_digit c then (let (n, r) = read_digits (c ∷ s) 0 in some (n % 256, r)) else none

negate : Option (ℕ × Bytes) → Option (ℕ × Bytes)
negate none = none
negate (some (n, r)) = some ((256 - n) % 256, r)

-- `%hhu` behind the white space: the digits, with or without a sign
scan_sign : Bytes → Option (ℕ × Bytes)
unfolding scan_digits negate
scan_sign [] = none
scan_sign (c ∷ s) =
    if c == b'+'
    then scan_digits s
    else if c == b'-'
    then negate (scan_digits s)
    else scan_digits (c ∷ s)

scan_hhu : Bytes → Option (ℕ × Bytes)
unfolding scan_sign is_space
scan_hhu [] = none
scan_hhu (c ∷ s) = if is_space c then scan_hhu s else scan_sign (c ∷ s)

-- the `.` of the format
scan_dot : Bytes → Option Bytes
scan_dot [] = none
scan_dot (c ∷ s) = if c == b'.' then some s else none

-- `sscanf(ip, "%hhu.%hhu.%hhu.%hhu", ...)`, where it converts all four
scan_quad : Bytes → Option (ℕ × ℕ × ℕ × ℕ)
unfolding scan_hhu scan_dot
scan_quad s = do
  (a, s) ← scan_hhu s
  s ← scan_dot s
  (b, s) ← scan_hhu s
  s ← scan_dot s
  (c, s) ← scan_hhu s
  s ← scan_dot s
  (e, s) ← scan_hhu s
  some (a, b, c, e)

-- the `uint32_t` value of -EINVAL
abbrev pub minus_einval : ℕ
minus_einval = 2 ^ 32 - 22

unfoldable pub ip_str_to_int : Dpdk → Bytes → ℕ
unfolding scan_quad
ip_str_to_int d ip = elim (scan_quad ip) [
  | none ↦ minus_einval
  | some q ↦ d.rte_ipv4 q.0 q.1 q.2 q.3
]

-- `%d` of a number below 1000
pub decimal : ℕ → Bytes
decimal n =
    if ltb n 10
    then (b'0' + n) ∷ []
    else if ltb n 100
    then (b'0' + n / 10) ∷ (b'0' + n % 10) ∷ []
    else (b'0' + n / 100) ∷ (b'0' + n / 10 % 10) ∷ (b'0' + n % 10) ∷ []

-- `snprintf` into 16 bytes leaves room for 15 and the NUL.
unfoldable pub ip_addr_to_str : ℕ → Bytes
unfolding decimal
ip_addr_to_str addr = take 15 (
    decimal (addr / 2 ^ 24 % 256)
    ++ b'.'
      ∷ (decimal (addr / 2 ^ 16 % 256)
          ++ b'.' ∷ (decimal (addr / 2 ^ 8 % 256) ++ b'.' ∷ decimal (addr % 256))))

-- `ip & 0xFF`, of an address as it lies in memory on a little-endian host
unfoldable pub ip_is_multicast : ℕ → Bool
ip_is_multicast ip = leb 224 (ip % 256) && leb (ip % 256) 239

unfoldable pub get_local_ip : Dpdk → ℕ
unfolding ip_str_to_int
get_local_ip d = ip_str_to_int d local_ip_text

unfoldable pub get_local_mac : Dpdk → Mem
get_local_mac d = d.ether_unformat_addr local_mac_text
