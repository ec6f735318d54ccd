-- ===== src/Utils/Text.antt =====
-- Addresses as text: what ip_addr_to_str prints, ip_str_to_int reads.
use kernel_bypass_group_proj.Base.{
  ℕ, zero, suc, ◌/◌, ◌%◌, ◌^◌, ◌≤◌, ◌<◌, ◌≡◌, refl, sym, ◌∙◌, ap, append-nil, Bytes, [], ◌∷◌, ◌++◌,
  some, arith, length, length-append, take,
}
use kernel_bypass_group_proj.Dpdk.{Dpdk, Laws}
use kernel_bypass_group_proj.Utils.{
  scan_hhu, scan_dot, scan_quad, ip_str_to_int, decimal, ip_addr_to_str,
}

-- a place where a number ends: the end of the text, or a dot
data Ends : Bytes → Type 0 where
  nil : Ends []
  dot : (s : Bytes) → Ends (b'.' ∷ s)

scan_hhu-decimal : (n : ℕ) (s : Bytes) → n < 256 → Ends s → scan_hhu (decimal n ++ s) ≡ some (n, s)
unfolding scan_hhu decimal
scan_hhu-decimal n s h nil = ground arith
scan_hhu-decimal n s h (dot s') = ground arith

length-decimal : (n : ℕ) → length (decimal n) ≤ 3
unfolding decimal
length-decimal n = ground arith

pub take-le : (n : ℕ) (s : Bytes) → length s ≤ n → take n s ≡ s
take-le zero [] h = refl
take-le zero (c ∷ s) h = absurd (omega arith)
take-le (suc n) [] h = refl
take-le (suc n) (c ∷ s) h = ap (λ (t : Bytes). c ∷ t) (take-le n s (omega arith))

-- four numbers between dots
abbrev pub quad : ℕ → ℕ → ℕ → ℕ → Bytes
quad a b c e = decimal a ++ b'.' ∷ (decimal b ++ b'.' ∷ (decimal c ++ b'.' ∷ decimal e))

pub length-quad : (a b c e : ℕ) → length (quad a b c e) ≤ 15
length-quad a b c e = omega (
  arith,
  length-append (decimal a) (b'.' ∷ (decimal b ++ b'.' ∷ (decimal c ++ b'.' ∷ decimal e))),
  length-append (decimal b) (b'.' ∷ (decimal c ++ b'.' ∷ decimal e)),
  length-append (decimal c) (b'.' ∷ decimal e),
  length-decimal a,
  length-decimal b,
  length-decimal c,
  length-decimal e,
)

scan_quad-quad :
    (a b c e : ℕ)
    → a < 256
    → b < 256
    → c < 256
    → e < 256
    → scan_quad (quad a b c e) ≡ some (a, b, c, e)
unfolding scan_quad scan_dot
scan_quad-quad a b c e ha hb hc he =
    let last : scan_hhu (decimal e) ≡ some (e, []) =
      ap scan_hhu (sym (append-nil (decimal e))) ∙ scan_hhu-decimal e [] he nil in
    rw (
      scan_hhu-decimal a (b'.' ∷ (decimal b ++ b'.' ∷ (decimal c ++ b'.' ∷ decimal e))) ha (dot _),
      scan_hhu-decimal b (b'.' ∷ (decimal c ++ b'.' ∷ decimal e)) hb (dot _),
      scan_hhu-decimal c (b'.' ∷ decimal e) hc (dot _),
      last,
    )

-- For a RTE_IPV4 that puts its first byte foremost, the text that ip_addr_to_str prints of a 32-bit
-- address has at most 15 bytes, so nothing is cut off, and ip_str_to_int reads it back as that
-- address.
pub ip_str_to_int-ip_addr_to_str :
    (d : Dpdk) (addr : ℕ)
    → Laws d
    → addr < 2 ^ 32
    → (length (ip_addr_to_str addr) ≤ 15) × (ip_str_to_int d (ip_addr_to_str addr) ≡ addr)
unfolding ip_addr_to_str ip_str_to_int
ip_str_to_int-ip_addr_to_str d addr laws h =
    let a = addr / 2 ^ 24 % 256 in
    let b = addr / 2 ^ 16 % 256 in
    let c = addr / 2 ^ 8 % 256 in
    let e = addr % 256 in
    let fits = length-quad a b c e in
    rw (take-le 15 (quad a b c e) fits) (
      fits,
      rw
          (
            ip_str_to_int,
            scan_quad-quad a b c e (omega arith) (omega arith) (omega arith) (omega arith),
          )
          (laws.rte_ipv4_lem a b c e ∙ omega arith),
    )
