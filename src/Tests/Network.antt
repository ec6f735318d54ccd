-- ===== src/Tests/Network.antt =====
-- Examples of the layers below the application.
use mathlib.Core.List.{map}
use kernel_bypass_group_proj.Base.{
  ℕ, zero, suc, ◌^◌, ◌≤◌, ◌<◌, ◌≡◌, refl, Bytes, List, [], ◌∷◌, ◌++◌, some, ◌==◌, if◌then◌else◌,
  arith, length, All, codes, get_or,
}
use kernel_bypass_group_proj.Base.Int.{pos, negsuc}
use kernel_bypass_group_proj.Mem.{Mem, memcpy}
use kernel_bypass_group_proj.World.{World, ArpEntry, ArpTable, transmit, free}
use kernel_bypass_group_proj.Utils.{ip_str_to_int, ip_addr_to_str, get_local_ip}
use kernel_bypass_group_proj.Utils.Dump.{pkt_dump, spaced, pkt_dump_lem}
use kernel_bypass_group_proj.Utils.EthAddr.{str_to_eth_addr}
use kernel_bypass_group_proj.Utils.Text.{quad, ip_str_to_int-ip_addr_to_str}
use kernel_bypass_group_proj.Arp.{arp_lookup_mac, arp_in, init_arp_table}
use kernel_bypass_group_proj.Arp.Table.{
  IsLine, ZeroFrom, IsValid, Loaded, line_of, init_arp_table_lem, arp_lookup_mac_zero,
}
use kernel_bypass_group_proj.Arp.Answer.{IsAnswer, arp_in_lem}
use kernel_bypass_group_proj.Api.State.{State, log_event}
use kernel_bypass_group_proj.Receive.{Env, eth_in}
use kernel_bypass_group_proj.Receive.Dispatch.{eth_in_lem}
use kernel_bypass_group_proj.Tests.{
  toy, toy_laws, avoids-All, frame, frame_small, reply_bytes, world, state,
}

-- A text is cut after the fourth number, whatever follows it.
scan_test : ip_str_to_int toy (codes "10.1.0.3x") ≡ 167837699
unfolding ip_str_to_int
scan_test = refl

address_example :
    (length (ip_addr_to_str 167837698) ≤ 15)
    × (ip_str_to_int toy (ip_addr_to_str 167837698) ≡ 167837698)
address_example = ip_str_to_int-ip_addr_to_str toy 167837698 toy_laws (omega arith)

dump_example :
    pkt_dump (frame reply_bytes)
    ≡ codes "DST MAC: "
      ++ spaced (0 ∷ 0 ∷ 0 ∷ 0 ∷ 0 ∷ 0 ∷ [])
      ++ codes " SRC MAC: "
      ++ spaced (0 ∷ 0 ∷ 0 ∷ 0 ∷ 0 ∷ 0 ∷ [])
      ++ codes "SRC IP: "
      ++ quad 3 0 1 10
      ++ codes " DST IP: "
      ++ quad 2 0 1 10
      ++ codes " \n"
dump_example = pkt_dump_lem (frame reply_bytes) (frame_small reply_bytes refl)

-- Six numbers, and fewer.
mac_read :
    str_to_eth_addr (codes "00:1B:21:ff:a:0x1") (frame reply_bytes)
    ≡ (pos 0, memcpy (frame reply_bytes) 0 (λ i. get_or (0 ∷ 27 ∷ 33 ∷ 255 ∷ 10 ∷ 1 ∷ []) i 0) 6)
unfolding str_to_eth_addr
mac_read = refl

mac_test : (str_to_eth_addr (codes "00:1B:21:ff:a") (frame reply_bytes)).0 ≡ negsuc 21
unfolding str_to_eth_addr
mac_test = refl

abbrev zeros : ℕ → List ArpEntry
zeros zero = []
zeros (suc n) = record { addr = 0; mac = λ i. 0 } ∷ zeros n

abbrev fresh : ArpTable
fresh = record { known_haddrs = zeros 64; arp_count = 0 }

zeros-ZeroFrom : (n : ℕ) → ZeroFrom (zeros n) 0
zeros-ZeroFrom zero = tt
zeros-ZeroFrom (suc n) = (refl, zeros-ZeroFrom n)

fresh-IsValid : IsValid fresh
fresh-IsValid = record { size = refl; rest = zeros-ZeroFrom 64 }

abbrev file : List (Bytes × Bytes)
file = (codes "10.1.0.3", codes "AA") ∷ (codes "10.1.0.4", codes "BB") ∷ []

file-IsLine : All (IsLine toy) file
file-IsLine = (
  (avoids-All b' ' (codes "10.1.0.3") refl, avoids-All b'\n' (codes "AA") refl),
  ((avoids-All b' ' (codes "10.1.0.4") refl, avoids-All b'\n' (codes "BB") refl), tt),
)

table_example :
    (t : ArpTable) × (init_arp_table toy (some (map (line_of toy) file)) fresh ≡ some t)
    × Loaded toy fresh file t
table_example = init_arp_table_lem toy file fresh fresh-IsValid file-IsLine (omega arith)

zero_example : (mac : Mem) × (arp_lookup_mac fresh 0 ≡ some mac)
zero_example = arp_lookup_mac_zero fresh fresh-IsValid (omega arith)

-- Who has 10.1.0.2? asks 10.1.0.4.
abbrev question : Bytes
question =
    0xff ∷ 0xff ∷ 0xff ∷ 0xff ∷ 0xff ∷ 0xff ∷ 4 ∷ 4 ∷ 4 ∷ 4 ∷ 4 ∷ 4 ∷ 8 ∷ 6 ∷ 0 ∷ 1 ∷ 8 ∷ 0 ∷ 6 ∷ 4
    ∷ 0 ∷ 1 ∷ 4 ∷ 4 ∷ 4 ∷ 4 ∷ 4 ∷ 4 ∷ 10 ∷ 1 ∷ 0 ∷ 4 ∷ 0 ∷ 0 ∷ 0 ∷ 0 ∷ 0 ∷ 0 ∷ 10 ∷ 1 ∷ 0 ∷ 2 ∷ []

abbrev asked : World
asked = record world {
  heap = λ p. record { contents = frame question; next = 0; pkt_len = 42; data_len = 42 };
}

own_small : get_local_ip toy < 2 ^ 32
unfolding get_local_ip
own_small = ground arith

answer_example :
    (f : Mem) × IsAnswer toy (frame question) f
    × ((arp_in toy asked 1 14).trace ≡ [] ++ transmit 1 f 42 ∷ [])
unfolding get_local_ip
answer_example = arp_in_lem toy asked 1 (frame_small question refl) own_small

abbrev env : Env
env = record { fuel = 3; buffer = []; key = [] }

-- A datagram to the port 8081 of this host is released.
abbrev misdirected : State toy
misdirected = record state {
  world = record world {
    heap = λ p. record {
      contents = λ i. if i == 37 then 0x91 else frame reply_bytes i;
      next = 0;
      pkt_len = 65;
      data_len = 65;
    };
  };
}

dispatch_example : eth_in env 1 misdirected ≡ some (log_event misdirected (free 1))
unfolding get_local_ip arp_lookup_mac
dispatch_example = eth_in_lem env 1 misdirected
