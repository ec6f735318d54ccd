-- ===== src/Receive/Run.antt =====
-- Runs of lcore_main in which clients ask for keys: the main loop does not fail, and every key is
-- asked of the server.
pub mod Loop
use kernel_bypass_group_proj.Base.{
  ℕ, ◌+◌, ◌%◌, ◌≤◌, ◌<◌, ◌≡◌, ◌≢◌, ◌⊎◌, refl, sym, ◌∙◌, ap, subst, inl, inr, Bytes, List, [], ◌∷◌,
  ◌++◌, Option, some, Bool, true, false, arith, ◌==◌, ◌||◌, not, ◌&&◌, length, All, append_assoc,
  if◌then◌else◌, append-nil,
}
use kernel_bypass_group_proj.Config.{target_ip_text}
use kernel_bypass_group_proj.Mem.{Mem, read16, read32, slice, raw32}
use kernel_bypass_group_proj.Dpdk.{Dpdk, Laws, Ptr, null}
use kernel_bypass_group_proj.World.{World, Mbuf, data_of, set_mbuf}
use kernel_bypass_group_proj.World.Laws.{heap-set_mbuf, heap-set_mbuf_ne}
use kernel_bypass_group_proj.Utils.{ip_str_to_int, ip_is_multicast, get_local_ip}
use kernel_bypass_group_proj.Arp.{arp_lookup_mac}
use kernel_bypass_group_proj.Api.State.{State, small_data_room, init_hashmap, ◌>>=◌}
use kernel_bypass_group_proj.Api.Keys.{strip_keys}
use kernel_bypass_group_proj.Api.Payload.{AppPayload, init_rcv_app_payload}
use kernel_bypass_group_proj.Api.Group.{has_key}
use kernel_bypass_group_proj.Api.Client.{app_client_in}
use kernel_bypass_group_proj.Api.Server.{app_server_in, refresh_backlog}
use kernel_bypass_group_proj.Api.Run.{
  IsHeld, Setting, IsFit, Asks, still, Moves, Serves, Steps, HasTemplate, IsIdle, IsLive, Does,
}
use kernel_bypass_group_proj.Api.Run.Compose.{
  Serves-trans, Steps-Serves, Steps-quiet, Moves-refl, Does-bind,
}
use kernel_bypass_group_proj.Api.Run.Client.{IsLive-fewer, app_client_in-Does, refresh_backlog-Does}
use kernel_bypass_group_proj.Receive.{
  Env, eth_in, is_some, arrive_all, take_burst, poll, lcore_main,
}
use kernel_bypass_group_proj.Receive.Dispatch.{IsInbound, eth_in-inbound}

-- A packet of a client in its buffer, and the keys that it asks for.
pub record Request : Type 0 where
  pub buffer : Ptr
  pub packet : Mbuf
  pub keys : List Bytes

abbrev pub burst_of : List Request → List (Ptr × Mbuf)
burst_of [] = []
burst_of (r ∷ rs) = (r.buffer, r.packet) ∷ burst_of rs

abbrev pub bursts_of : List (List Request) → List (List (Ptr × Mbuf))
bursts_of [] = []
bursts_of (v ∷ vs) = burst_of v ∷ bursts_of vs

abbrev pub keys_of : List Request → List Bytes
keys_of [] = []
keys_of (r ∷ rs) = r.keys ++ keys_of rs

abbrev pub all_keys : List (List Request) → List Bytes
all_keys [] = []
all_keys (v ∷ vs) = keys_of v ++ all_keys vs

-- how many copies are made at most: one for each key, and the template
abbrev pub copies_for : List Request → ℕ
copies_for [] = 0
copies_for (r ∷ rs) = 1 + length r.keys + copies_for rs

abbrev pub all_copies : List (List Request) → ℕ
all_copies [] = 0
all_copies (v ∷ vs) = copies_for v + all_copies vs

-- The frame holds a datagram that goes to the application and is not the server's; strip_keys reads
-- wanted keys out of its message.
pub record IsAsking (d : Dpdk) (t : Setting) (env : Env) (m : Mem) (keys : List Bytes)
    : Type 0 where
  pub inbound : IsInbound d t.arp m
  pub not_server : read32 m 26 ≢ ip_str_to_int d target_ip_text
  pub payload : AppPayload
  pub accepted : init_rcv_app_payload m 34 ≡ some payload
  pub stripped : strip_keys env.buffer (slice m payload.payload payload.msg_len) ≡ some keys
  pub wanted : All t.Wanted keys

-- The packets of a burst lie in different buffers, none of which is NULL or a copy's; one with
-- several keys fits a small buffer.
abbrev pub IsBurst : Dpdk → Setting → Env → List Request → Type 0
IsBurst d t env [] = Unit
IsBurst d t env (r ∷ rs) =
    IsAsking d t env r.packet.contents r.keys
    × (r.buffer ≢ null)
    × (t.pooled r.buffer ≡ false)
    × (2 ≤ length r.keys → r.packet.pkt_len ≤ small_data_room)
    × All (λ q. q.buffer ≢ r.buffer) rs
    × IsBurst d t env rs

-- Such a frame goes to the clients' side.
eth_in-asking :
    {d : Dpdk} {t : Setting} (env : Env) (p : Ptr) (s : State d) (keys : List Bytes)
    → IsAsking d t env (data_of s.world p) keys
    → s.world.arp ≡ t.arp
    → eth_in env p s ≡ app_client_in env.buffer p 34 s
eth_in-asking {d} env p s keys is arp =
    let m = data_of s.world p in
    let other : (read32 m 26 == ip_str_to_int d target_ip_text) ≡ false =
      test_differs (read32 m 26) (ip_str_to_int d target_ip_text) is.not_server in
    eth_in-inbound env p s (rw arp is.inbound) ∙ rw other refl
  where
    test_differs : (a b : ℕ) → a ≢ b → (a == b) ≡ false
    test_differs a b ne = ground arith

module _ {d : Dpdk} {t : Setting} (laws : Laws d) (fit : IsFit d t) (env : Env) where
  eth_in-Does :
      (p : Ptr) (keys : List Bytes) (n : ℕ) (s : State d)
      → IsLive t (1 + length keys + n) s
      → IsAsking d t env (data_of s.world p) keys
      → IsHeld t s.world p (length keys)
      → Does t (IsLive t n) keys s (eth_in env p s)
  eth_in-Does p keys n s live is held =
      let (s', ran, done, st) =
        app_client_in-Does fit laws env.buffer p keys n s is.payload live held is.accepted
          is.stripped is.wanted in
      (s', eth_in-asking env p s keys is live.0.steady.arp ∙ ran, done, st)

  -- The packets of a burst that is still to be taken lie in their buffers.
  abbrev pub AreHeld : World → List Request → Type 0
  AreHeld w [] = Unit
  AreHeld w (r ∷ rs) =
      (data_of w r.buffer ≡ r.packet.contents)
      × ((w.heap r.buffer).pkt_len ≡ r.packet.pkt_len)
      × AreHeld w rs

  held-Moves :
      {w w' : World} {sent : List Bytes} (rs : List Request)
      → Moves d t w w' sent
      → IsBurst d t env rs
      → AreHeld w rs
      → AreHeld w' rs
  held-Moves [] m is held = tt
  held-Moves (r ∷ rs) m is held = (
    m.arrived r.buffer is.2 ∙ held.0,
    m.lengths r.buffer is.2 ∙ held.1,
    held-Moves rs m is.5 held.2,
  )

  AreHeld-IsHeld :
      (r : Request) (rs : List Request) (w : World)
      → IsBurst d t env (r ∷ rs)
      → AreHeld w (r ∷ rs)
      → IsHeld t w r.buffer (length r.keys)
  AreHeld-IsHeld r rs w is held = record {
    there = is.1;
    apart = is.2;
    short_header = ap (λ m. m 14 % 16) held.0 ∙ is.0.inbound.short_header;
    fits = λ two. subst (λ n. n ≤ small_data_room) (sym held.1) (is.3 two);
  }

  pub take_burst-Does :
      (rs : List Request) (n : ℕ) (s : State d)
      → IsLive t (copies_for rs + n) s
      → IsBurst d t env rs
      → AreHeld s.world rs
      → Does t (IsLive t n) (keys_of rs) s (take_burst env (burst_of rs) s)
  unfolding take_burst
  take_burst-Does [] n s live is held =
      (s, refl, IsLive-fewer (omega arith) live, Steps-quiet (Moves-refl s.world) refl)
  take_burst-Does (r ∷ rs) n s live is held =
      let more = copies_for rs + n in
      Does-bind (λ s1. eth_in env r.buffer s1 >>= take_burst env (burst_of rs))
        (refresh_backlog-Does fit s live)
        (λ s1 live1 st1.
          let held1 = held-Moves (r ∷ rs) st1.moves is held in
          Does-bind (take_burst env (burst_of rs))
            (eth_in-Does r.buffer r.keys more s1 (IsLive-fewer (omega arith) live1)
              (subst (λ m. IsAsking d t env m r.keys) (sym held1.0) is.0)
              (AreHeld-IsHeld r rs s1.world is held1))
            (λ s2 live2 st2.
              take_burst-Does rs n s2 live2 is.5 (held-Moves rs st2.moves is.5 held1.2)))
