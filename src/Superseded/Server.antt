-- ===== src/Superseded/Server.antt =====
-- deprecated/server.cpp, from the loop on: the server that the old middlebox was tried with. It
-- splits what it receives at `|` and sends the parts back. What recvfrom gives is an argument; the
-- setup of the socket is in Sockets.
pub mod Answer
use kernel_bypass_group_proj.Base.{
  ℕ, zero, suc, ◌*◌, Bytes, List, [], ◌∷◌, ◌++◌, Option, none, some, ◌==◌, ltb, if◌then◌else◌,
  length, codes,
}
use kernel_bypass_group_proj.Base.Int.{ℤ, pos, negsuc}
use kernel_bypass_group_proj.Base.Results.{◌>>=◌}
use kernel_bypass_group_proj.Mem.{Mem, slice}
use kernel_bypass_group_proj.Sockets.{Net, Finish, crashed, finished, open_server}
use kernel_bypass_group_proj.Api.Keys.{c_str}

abbrev pub max_line : ℕ
max_line = 1024

-- `received.find(delimiter)`: what stands before the first delimiter, and what behind it
abbrev pub find : Bytes → Option (Bytes × Bytes)
find [] = none
find (c ∷ s) =
    if c == b'|'
    then some ([], s)
    else elim (find s) [ none ↦ none | some (head, rest) ↦ some (c ∷ head, rest) ]

-- The loop on `found`, on fuel; `none` is a loop that goes on.
pub answer_rounds : ℕ → Bytes → Bytes → Option Bytes
answer_rounds zero received send = none
answer_rounds (suc fuel) received send = elim (find received) [
  | none ↦ some send
  | some (head, rest) ↦ answer_rounds fuel rest ((send ++ head) ++ codes "a|")
]

-- One round for each delimiter and one to find that there is none left.
unfoldable pub split_answer : Bytes → Option Bytes
unfolding answer_rounds
split_answer received = answer_rounds (suc (length received)) received []

-- One round of the server: what is sent. `none` is an access outside an array: `buffer[n]` for -1
-- and for a datagram that fills the buffer, and `send_buf`.
unfoldable pub serve : ℤ × Mem → Option Bytes
unfolding c_str split_answer
serve (pos n, buffer) =
    if ltb n max_line
    then split_answer (c_str (slice buffer 0 n))
      >>= (λ send. if ltb (length send) (max_line * 2) then some send else none)
    else none
serve (negsuc n, buffer) = none

-- the rounds of `while(true)` so far
unfoldable pub serve_all : List (ℤ × Mem) → Option (List Bytes)
unfolding serve
serve_all [] = some []
serve_all (r ∷ rs) = serve r >>= (λ send. serve_all rs >>= (λ sends. some (send ∷ sends)))

-- main, with the rounds so far
unfoldable pub server_program : Net → List (ℤ × Mem) → Finish (List Bytes)
unfolding open_server serve_all
server_program net rs =
    open_server net (elim (serve_all rs) [ none ↦ crashed | some sends ↦ finished sends ])
