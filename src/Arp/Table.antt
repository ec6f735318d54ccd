-- ===== src/Arp/Table.antt =====
-- The table of arp.c as a map from addresses: which hardware address arp_lookup_mac finds after the
-- file has been read, and what it finds for the address 0.
use kernel_bypass_group_proj.Base.{
  ℕ, zero, suc, ◌+◌, ◌≤◌, ◌<◌, ◌≡◌, ◌≢◌, refl, ◌∙◌, ap, Bytes, List, [], ◌∷◌, ◌++◌, Option, none,
  some, Bool, true, false, subst, arith, inl, inr, leb, Bool-cases, ◌==◌, if◌then◌else◌, length,
  set, All,
}
use kernel_bypass_group_proj.Base.Int.{pos}
use kernel_bypass_group_proj.Config.{arp_entries_count}
use kernel_bypass_group_proj.Mem.{Mem}
use kernel_bypass_group_proj.Dpdk.{Dpdk}
use kernel_bypass_group_proj.World.{ArpEntry, ArpTable}
use kernel_bypass_group_proj.Utils.{ip_str_to_int}
use kernel_bypass_group_proj.Arp.{
  lookup_entry, arp_lookup_mac, add_arp_entry, split_line, cut_newline, add_lines, init_arp_table,
}
use mathlib.Core.List.{map}

-- The entries from an index on are as the loader left them.
abbrev pub ZeroFrom : List ArpEntry → ℕ → Type 0
ZeroFrom [] n = Unit
ZeroFrom (e ∷ es) zero = (e.addr ≡ 0) × ZeroFrom es zero
ZeroFrom (e ∷ es) (suc n) = ZeroFrom es n

pub record IsValid (t : ArpTable) : Type 0 where
  pub size : length t.known_haddrs ≡ arp_entries_count
  pub rest : ZeroFrom t.known_haddrs t.arp_count

-- the second answer where the first is none
abbrev pub or_else {ℓ} : {A : Type ℓ} → Option A → Option A → Option A
or_else (some a) o = some a
or_else none o = o

lookup_entry-ZeroFrom :
    (es : List ArpEntry) (addr : ℕ) → addr ≢ 0 → ZeroFrom es 0 → lookup_entry es addr ≡ none
unfolding lookup_entry
lookup_entry-ZeroFrom [] addr ne z = refl
lookup_entry-ZeroFrom (e ∷ es) addr ne z = ground (arith, lookup_entry-ZeroFrom es addr ne z.1)

lookup_entry-set :
    (es : List ArpEntry) (i : ℕ) (e : ArpEntry) (addr : ℕ)
    → addr ≢ 0
    → i < length es
    → ZeroFrom es i
    → lookup_entry (set es i e) addr
      ≡ or_else (lookup_entry es addr) (if addr == e.addr then some e.mac else none)
unfolding lookup_entry
lookup_entry-set [] i e addr ne h z = absurd (omega arith)
lookup_entry-set (x ∷ es) zero e addr ne h z = ground (arith, lookup_entry-ZeroFrom es addr ne z.1)
lookup_entry-set (x ∷ es) (suc i) e addr ne h z =
    ground (arith, lookup_entry-set es i e addr ne (omega arith) z)

ZeroFrom-set :
    (es : List ArpEntry) (i : ℕ) (e : ArpEntry) → ZeroFrom es i → ZeroFrom (set es i e) (suc i)
ZeroFrom-set [] i e z = tt
ZeroFrom-set (x ∷ es) zero e z = z.1
ZeroFrom-set (x ∷ es) (suc i) e z = ZeroFrom-set es i e z

length-set : (es : List ArpEntry) (i : ℕ) (e : ArpEntry) → length (set es i e) ≡ length es
length-set [] i e = refl
length-set (x ∷ es) zero e = refl
length-set (x ∷ es) (suc i) e = ap suc (length-set es i e)

module _ (d : Dpdk) where
  -- add_arp_entry, while there is room: it reports success and keeps the table valid, and a later
  -- lookup of an address other than 0 finds what it found before, else the new entry.
  add_arp_entry_lem :
      (t : ArpTable) (ip mac : Bytes)
      → IsValid t
      → t.arp_count < arp_entries_count
      → let (r, t') = add_arp_entry d t ip mac in
        (r ≡ pos 0)
        × IsValid t'
        × (t'.arp_count ≡ suc t.arp_count)
        × ((addr : ℕ)
            → addr ≢ 0
            → arp_lookup_mac t' addr
              ≡ or_else
                  (arp_lookup_mac t addr)
                  (if addr == ip_str_to_int d ip then some (d.ether_unformat_addr mac) else none))
  unfolding add_arp_entry arp_lookup_mac
  add_arp_entry_lem t ip mac v room =
      let fits : leb arp_entries_count t.arp_count ≡ false = ground arith in
      let e : ArpEntry = record { addr = ip_str_to_int d ip; mac = d.ether_unformat_addr mac } in
      let in_range : t.arp_count < length t.known_haddrs = rw v.size room in
      rw fits (
        refl,
        record {
          size = length-set t.known_haddrs t.arp_count e ∙ v.size;
          rest = ZeroFrom-set t.known_haddrs t.arp_count e v.rest;
        },
        refl,
        λ addr ne. lookup_entry-set t.known_haddrs t.arp_count e addr ne in_range v.rest,
      )

  -- A line of the file: the two texts, and the characters between and behind them.
  abbrev pub line_of : Bytes × Bytes → Bytes
  line_of (ip, mac) = ip ++ b' ' ∷ (mac ++ b'\n' ∷ [])

  abbrev pub IsLine : Bytes × Bytes → Type 0
  IsLine (ip, mac) = All (λ c. c ≢ b' ') ip × All (λ c. c ≢ b'\n') mac

  split_line-line_of :
      (ip rest : Bytes) → All (λ c. c ≢ b' ') ip → split_line (ip ++ b' ' ∷ rest) ≡ some (ip, rest)
  unfolding split_line
  split_line-line_of [] rest h = refl
  split_line-line_of (c ∷ ip) rest h = ground (arith, split_line-line_of ip rest h.1)

  cut_newline-append :
      (mac : Bytes) → All (λ c. c ≢ b'\n') mac → cut_newline (mac ++ b'\n' ∷ []) ≡ mac
  unfolding cut_newline
  cut_newline-append [] h = refl
  cut_newline-append (c ∷ mac) h = ground (arith, cut_newline-append mac h.1)

  -- the hardware address of the first pair with the address
  pub first_match : List (Bytes × Bytes) → ℕ → Option Mem
  first_match [] addr = none
  first_match ((ip, mac) ∷ es) addr =
      if addr == ip_str_to_int d ip then some (d.ether_unformat_addr mac) else first_match es addr

  or_else_step :
      (o : Option Mem) (ip mac : Bytes) (es : List (Bytes × Bytes)) (addr : ℕ)
      → or_else
          (or_else o
            (if addr == ip_str_to_int d ip then some (d.ether_unformat_addr mac) else none))
          (first_match es addr)
        ≡ or_else o (first_match ((ip, mac) ∷ es) addr)
  unfolding first_match
  or_else_step o ip mac es addr = ground arith

  abbrev pub Loaded : ArpTable → List (Bytes × Bytes) → ArpTable → Type 0
  Loaded t es t' =
      IsValid t'
      × ((addr : ℕ)
          → addr ≢ 0
          → arp_lookup_mac t' addr ≡ or_else (arp_lookup_mac t addr) (first_match es addr))

  add_lines-Loaded :
      (es : List (Bytes × Bytes)) (t : ArpTable)
      → IsValid t
      → All IsLine es
      → t.arp_count + length es ≤ arp_entries_count
      → (t' : ArpTable) × (add_lines d (map line_of es) t ≡ some t') × Loaded t es t'
  unfolding add_lines
  add_lines-Loaded [] t v h room = (t, refl, (v, λ addr ne. unfold first_match in ground arith))
  add_lines-Loaded ((ip, mac) ∷ es) t v h room =
      let (ok, v1, count, found) = add_arp_entry_lem t ip mac v (omega arith) in
      let (t', e, loaded) = add_lines-Loaded es (add_arp_entry d t ip mac).1 v1 h.1 (omega arith) in
      (
        t',
        rw
            (
              add_lines,
              split_line-line_of ip (mac ++ b'\n' ∷ []) h.0.0,
              cut_newline-append mac h.0.1,
            )
            e,
        (
          loaded.0,
          λ addr ne.
              loaded.1 addr ne
              ∙ ap (λ (o : Option Mem). or_else o (first_match es addr)) (found addr ne)
              ∙ or_else_step (arp_lookup_mac t addr) ip mac es addr,
        ),
      )

  -- Reading a file of lines of an address and a hardware address into a valid table with room for
  -- them, where no address has a space and no hardware address a line break: it succeeds and leaves
  -- a valid table, in which arp_lookup_mac finds for each address other than 0 what the table held
  -- before, else the hardware address of the first line with that address.
  pub init_arp_table_lem :
      (es : List (Bytes × Bytes)) (t : ArpTable)
      → IsValid t
      → All IsLine es
      → t.arp_count + length es ≤ arp_entries_count
      → (t' : ArpTable) × (init_arp_table d (some (map line_of es)) t ≡ some t') × Loaded t es t'
  unfolding init_arp_table
  init_arp_table_lem es t v h room = add_lines-Loaded es t v h room

lookup_entry_zero :
    (es : List ArpEntry) (n : ℕ)
    → ZeroFrom es n
    → n < length es
    → (mac : Mem) × (lookup_entry es 0 ≡ some mac)
unfolding lookup_entry
lookup_entry_zero [] n z h = absurd (omega arith)
lookup_entry_zero (e ∷ es) zero z h = (e.mac, ground arith)
lookup_entry_zero (e ∷ es) (suc n) z h = elim (Bool-cases (0 == e.addr)) [
  | inl hit ↦ (e.mac, rw hit)
  | inr miss ↦ rw miss (lookup_entry_zero es n z (omega arith))
]

-- In a valid table that is not full, arp_lookup_mac finds a hardware address for 0.0.0.0, though no
-- entry for it need have been added: the search takes in the entries behind arp_count.
pub arp_lookup_mac_zero :
    (t : ArpTable)
    → IsValid t
    → t.arp_count < arp_entries_count
    → (mac : Mem) × (arp_lookup_mac t 0 ≡ some mac)
unfolding arp_lookup_mac
arp_lookup_mac_zero t v room = lookup_entry_zero t.known_haddrs t.arp_count v.rest (rw v.size room)

first_or :
    {A : Type 0} (P : A → Type 0) {a b : A} (c : Bool) (o : Option A)
    → P a
    → (o ≡ some b → P b)
    → (if c then some a else o) ≡ some b
    → P b
first_or P true o p rest e = subst P (cc) p
first_or P false o p rest e = rest e

-- A property of every stored hardware address holds of the one that is found.
pub arp_lookup_mac-All :
    (P : Mem → Type 0) (t : ArpTable) (addr : ℕ) (mac : Mem)
    → All (λ e. P e.mac) t.known_haddrs
    → arp_lookup_mac t addr ≡ some mac
    → P mac
unfolding arp_lookup_mac lookup_entry
arp_lookup_mac-All P t addr mac h e = search t.known_haddrs h e
  where
    search : (es : List ArpEntry) → All (λ e. P e.mac) es → lookup_entry es addr ≡ some mac → P mac
    search [] h e = cc
    search (x ∷ es) h e = first_or P (addr == x.addr) (lookup_entry es addr) h.0 (search es h.1) e
