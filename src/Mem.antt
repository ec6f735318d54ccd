-- ===== src/Mem.antt =====
-- The data of a packet buffer: a byte at each offset from its start. Numbers of more than one byte
-- are in network order, so a read here is the C read with its rte_be_to_cpu or ntohs, and a write
-- the C write with its rte_cpu_to_be or htons.
use kernel_bypass_group_proj.Base.{
  ℕ, zero, suc, ◌+◌, ◌-◌, ◌*◌, ◌/◌, ◌%◌, Bytes, [], ◌∷◌, ◌&&◌, ◌==◌, ltb, leb, if◌then◌else◌,
}

abbrev pub Mem : Type 0
Mem = ℕ → ℕ

abbrev pub read16 : Mem → ℕ → ℕ
read16 m o = m o * 256 + m (o + 1)

abbrev pub read32 : Mem → ℕ → ℕ
read32 m o = read16 m o * 65536 + read16 m (o + 2)

abbrev pub write8 : Mem → ℕ → ℕ → Mem
write8 m o v a = if a == o then v % 256 else m a

abbrev pub write16 : Mem → ℕ → ℕ → Mem
write16 m o v a = if a == o then v / 256 % 256 else if a == o + 1 then v % 256 else m a

abbrev pub write32 : Mem → ℕ → ℕ → Mem
write32 m o v = write16 (write16 m o (v / 65536)) (o + 2) v

-- `memcpy(m + o, src, n)`
abbrev pub memcpy : Mem → ℕ → Mem → ℕ → Mem
memcpy m o src n a = if leb o a && ltb a (o + n) then src (a - o) else m a

-- the `n` bytes from offset `o` on
abbrev pub slice : Mem → ℕ → ℕ → Bytes
slice m o zero = []
slice m o (suc n) = m o ∷ slice m (o + 1) n

-- an address as it lies in memory, read by a little-endian host
abbrev pub raw32 : Mem → ℕ → ℕ
raw32 m o = m o + 256 * (m (o + 1) + 256 * (m (o + 2) + 256 * m (o + 3)))
