-- ===== src/Sockets.antt =====
-- The setup of a socket, as the mains of client/client.cpp, rand_client/client.cpp,
-- client/old_client.cpp and deprecated/server.cpp do it before their loops, and how these programs
-- end. What the calls return is the record Net. Filling the address structures calls htons and
-- inet_pton, whose results are not looked at; a text stands for the address made of it.
pub mod Ends
use kernel_bypass_group_proj.Base.{ℕ, Bytes, Bool, true, false, if◌then◌else◌, codes}
use kernel_bypass_group_proj.Base.Int.{ℤ}
use kernel_bypass_group_proj.Port.{nonzero, negative}

pub record Net : Type 0 where
  -- socket(AF_INET, SOCK_DGRAM, 0)
  pub socket : ℤ
  -- SO_BINDTODEVICE with that name and length
  pub setsockopt : Bytes → ℕ → ℤ
  -- with the address and the port
  pub bind : Bytes → ℕ → ℤ

-- A program has ended with status 1 before its loop, has done what C does not define, or has
-- got so far.
pub data Finish (A : Type 0) : Type 0 where
  failed : Finish A
  crashed : Finish A
  finished : A → Finish A

-- `sizeof(interface)` is the size of a pointer here.
unfoldable pub open_client : {A : Type 0} → Net → Bytes → Bytes → Finish A → Finish A
open_client net interface client_ip rest =
    if negative net.socket
    then failed
    else if nonzero (net.setsockopt interface 8)
    then failed
    else if negative (net.bind client_ip 8080)
    then failed
    else rest

-- The server copies its interface into an array of MAXLINE bytes.
unfoldable pub open_server : {A : Type 0} → Net → Finish A → Finish A
open_server net rest =
    if negative net.socket
    then failed
    else if negative (net.bind (codes "10.1.0.3") 8080)
    then failed
    else if nonzero (net.setsockopt (codes "veth2") 1024)
    then failed
    else rest
