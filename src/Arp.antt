-- ===== src/Arp.antt =====
-- middlebox/src/arp.c: the table of known hardware addresses, and the answer to an ARP request.
pub mod Table
pub mod Answer
use kernel_bypass_group_proj.Base.{
  ℕ, suc, ◌+◌, Bytes, List, [], ◌∷◌, Option, none, some, Bool, true, false, ◌||◌, ◌==◌, leb,
  if◌then◌else◌, set,
}
use kernel_bypass_group_proj.Base.Int.{ℤ, pos, negsuc}
use kernel_bypass_group_proj.Config.{arp_entries_count}
use kernel_bypass_group_proj.Mem.{Mem, read16, read32, write16, write32, memcpy}
use kernel_bypass_group_proj.Dpdk.{Dpdk, Ptr}
use kernel_bypass_group_proj.World.{World, ArpEntry, ArpTable, data_of, set_data}
use kernel_bypass_group_proj.Utils.{ip_str_to_int, get_local_ip, get_local_mac}
use kernel_bypass_group_proj.Eth.{eth_out}

-- the search of arp_lookup_mac, over all ARP_ENTRIES_COUNT entries
lookup_entry : List ArpEntry → ℕ → Option Mem
lookup_entry [] addr = none
lookup_entry (e ∷ es) addr = if addr == e.addr then some e.mac else lookup_entry es addr

unfoldable pub arp_lookup_mac : ArpTable → ℕ → Option Mem
unfolding lookup_entry
arp_lookup_mac t addr = lookup_entry t.known_haddrs addr

-- -1 is `negsuc 0`.
pub add_arp_entry : Dpdk → ArpTable → Bytes → Bytes → ℤ × ArpTable
add_arp_entry d t ip mac = if leb arp_entries_count t.arp_count then (negsuc 0, t) else (
  pos 0,
  record {
    known_haddrs =
        set t.known_haddrs t.arp_count
          (record { addr = ip_str_to_int d ip; mac = d.ether_unformat_addr mac });
    arp_count = suc t.arp_count;
  },
)

-- the text before the first space and the text behind it; without a space the scan of
-- init_arp_table leaves the line
split_line : Bytes → Option (Bytes × Bytes)
split_line [] = none
split_line (c ∷ s) =
    if c == b' '
    then some ([], s)
    else elim (split_line s) [ none ↦ none | some (ip, mac) ↦ some (c ∷ ip, mac) ]

-- up to the end of the line
cut_newline : Bytes → Bytes
cut_newline [] = []
cut_newline (c ∷ s) = if c == b'\n' then [] else c ∷ cut_newline s

-- the `while` loop of init_arp_table over the lines of the file
unfoldable pub add_lines : Dpdk → List Bytes → ArpTable → Option ArpTable
unfolding split_line cut_newline add_arp_entry
add_lines d [] t = some t
add_lines d (line ∷ lines) t = elim (split_line line) [
  | none ↦ none
  | some (ip, mac) ↦ add_lines d lines (add_arp_entry d t ip (cut_newline mac)).1
]

-- `none` for the file stands for one that cannot be opened; `none` as the result, for a program
-- that has stopped.
unfoldable pub init_arp_table : Dpdk → Option (List Bytes) → ArpTable → Option ArpTable
unfolding add_lines
init_arp_table d none t = none
init_arp_table d (some lines) t = add_lines d lines t

abbrev pub rte_ether_type_arp : ℕ
rte_ether_type_arp = 0x0806

abbrev pub arp_hdr_size : ℕ
arp_hdr_size = 28

-- `arph` is the offset of the header: opcode at 6, sender at 8 and 14, target at 18 and 24.
-- `dst_haddr` is an offset too, since the caller points into the same packet.
unfoldable pub fill_arp_hdr : Dpdk → Mem → ℕ → ℕ → ℕ → ℕ → Mem
fill_arp_hdr d m arph opcode dst_ip dst_haddr =
    let m = write16 m (arph + 6) opcode in
    let m = write32 m (arph + 14) (get_local_ip d) in
    let m = write32 m (arph + 24) dst_ip in
    let m = memcpy m (arph + 18) (λ i. m (dst_haddr + i)) 6 in
    memcpy m (arph + 8) (get_local_mac d) 6

unfoldable pub arp_out : Dpdk → World → Ptr → ℕ → ℕ → ℕ → ℕ → World
unfolding fill_arp_hdr
arp_out d w p arph opcode dst_ip dst_haddr =
    let m = fill_arp_hdr d (data_of w p) arph opcode dst_ip dst_haddr in
    eth_out d (set_data w p m) p rte_ether_type_arp (λ i. m (arph + 18 + i)) arp_hdr_size

-- RTE_ARP_OP_REQUEST is 1 and RTE_ARP_OP_REPLY is 2; the other branches only print.
unfoldable pub arp_in : Dpdk → World → Ptr → ℕ → World
unfolding arp_out
arp_in d w p arph =
    let m = data_of w p in
    if read32 m (arph + 24) == get_local_ip d
    then (if read16 m (arph + 6) == 1
        then arp_out d w p arph 2 (read32 m (arph + 14)) (arph + 8)
        else w)
    else w
