-- ===== src/Utils/Dump.antt =====
-- middlebox/src/utils.c, pkt_dump: what it prints of a packet.
use kernel_bypass_group_proj.Base.{
  ℕ, zero, suc, ◌+◌, ◌-◌, ◌/◌, ◌%◌, ◌^◌, ◌<◌, ◌≡◌, refl, ◌∙◌, Bytes, [], ◌∷◌, ◌++◌, arith, ltb,
  if◌then◌else◌, codes,
}
use kernel_bypass_group_proj.Mem.{Mem, raw32}
use kernel_bypass_group_proj.Utils.{ip_addr_to_str}
use kernel_bypass_group_proj.Utils.Text.{quad, length-quad, take-le}

unfoldable pub hex_digit : ℕ → ℕ
hex_digit n = if ltb n 10 then b'0' + n else b'a' + (n - 10)

-- `%hhx` of a byte
unfoldable pub hex : ℕ → Bytes
unfolding hex_digit
hex n = if ltb n 16 then hex_digit n ∷ [] else hex_digit (n / 16) ∷ hex_digit (n % 16) ∷ []

-- `for (...) printf("%hhx ", ...)`
unfoldable pub dump_bytes : Mem → ℕ → ℕ → Bytes
unfolding hex
dump_bytes m o zero = []
dump_bytes m o (suc n) = hex (m o) ++ b' ' ∷ dump_bytes m (o + 1) n

-- The addresses are passed on as they lie in memory.
unfoldable pub pkt_dump : Mem → Bytes
unfolding ip_addr_to_str dump_bytes
pkt_dump m =
    codes "DST MAC: "
    ++ dump_bytes m 0 6
    ++ codes " SRC MAC: "
    ++ dump_bytes m 6 6
    ++ codes "SRC IP: "
    ++ ip_addr_to_str (raw32 m 26)
    ++ codes " DST IP: "
    ++ ip_addr_to_str (raw32 m 30)
    ++ codes " \n"

raw32-reversed :
    (m : Mem) (o : ℕ)
    → ((a : ℕ) → m a < 256)
    → ip_addr_to_str (raw32 m o) ≡ quad (m (o + 3)) (m (o + 2)) (m (o + 1)) (m o)
unfolding ip_addr_to_str
raw32-reversed m o h =
    let a0 = h o in
    let a1 = h (o + 1) in
    let a2 = h (o + 2) in
    let a3 = h (o + 3) in
    let n = raw32 m o in
    let b3 : n / 2 ^ 24 % 256 ≡ m (o + 3) = omega (arith, a0, a1, a2, a3) in
    let b2 : n / 2 ^ 16 % 256 ≡ m (o + 2) = omega (arith, a0, a1, a2, a3) in
    let b1 : n / 2 ^ 8 % 256 ≡ m (o + 1) = omega (arith, a0, a1, a2, a3) in
    let b0 : n % 256 ≡ m o = omega (arith, a0, a1, a2, a3) in
    take-le 15 _ (length-quad (n / 2 ^ 24 % 256) (n / 2 ^ 16 % 256) (n / 2 ^ 8 % 256) (n % 256))
    ∙ rw (b3, b2, b1, b0) refl

-- bytes as hexadecimal numbers, each with a space behind it
abbrev pub spaced : Bytes → Bytes
spaced [] = []
spaced (b ∷ bs) = hex b ++ b' ' ∷ spaced bs

-- Of a packet of bytes, pkt_dump prints the bytes of the two hardware addresses in their order, but
-- those of the two IP addresses, the source's at offset 26 and the destination's at 30, in
-- decimal in reverse order: the address a.b.c.d is printed as d.c.b.a.
pub pkt_dump_lem :
    (m : Mem)
    → ((a : ℕ) → m a < 256)
    → pkt_dump m
      ≡ codes "DST MAC: "
        ++ spaced (m 0 ∷ m 1 ∷ m 2 ∷ m 3 ∷ m 4 ∷ m 5 ∷ [])
        ++ codes " SRC MAC: "
        ++ spaced (m 6 ∷ m 7 ∷ m 8 ∷ m 9 ∷ m 10 ∷ m 11 ∷ [])
        ++ codes "SRC IP: "
        ++ quad (m 29) (m 28) (m 27) (m 26)
        ++ codes " DST IP: "
        ++ quad (m 33) (m 32) (m 31) (m 30)
        ++ codes " \n"
unfolding pkt_dump dump_bytes
pkt_dump_lem m h = rw (raw32-reversed m 26 h, raw32-reversed m 30 h) refl
