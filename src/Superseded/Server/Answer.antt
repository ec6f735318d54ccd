-- ===== src/Superseded/Server/Answer.antt =====
-- What the server of deprecated/server.cpp sends.
use mathlib.Core.List.{flat_map, map}
use kernel_bypass_group_proj.Base.{
  ℕ, zero, suc, ◌*◌, ◌≤◌, ◌<◌, ◌≡◌, ◌≢◌, refl, ◌∙◌, ap, Bytes, List, [], ◌∷◌, ◌++◌, append_assoc,
  append-nil, none, some, arith, lt→ltb, length, length-append, codes, All,
}
use kernel_bypass_group_proj.Base.Int.{ℤ, pos}
use kernel_bypass_group_proj.Mem.{Mem, slice}
use kernel_bypass_group_proj.Api.Keys.{c_str}
use kernel_bypass_group_proj.Clients.Receive.{length-slice}
use kernel_bypass_group_proj.Sockets.{Net}
use kernel_bypass_group_proj.Sockets.Ends.{IsOpen, Ends, open_server-Ends}
use kernel_bypass_group_proj.Superseded.Server.{
  find, answer_rounds, split_answer, serve, serve_all, server_program,
}

-- no delimiter
abbrev pub IsPart : Bytes → Type 0
IsPart = All (λ c. c ≢ b'|')

-- a part as it comes, and as it is sent back
abbrev pub asked : Bytes → Bytes
asked part = part ++ codes "|"

abbrev pub answered : Bytes → Bytes
answered part = part ++ codes "a|"

find_nothing : (s : Bytes) → IsPart s → find s ≡ none
find_nothing [] h = refl
find_nothing (c ∷ s) h = ground (arith, find_nothing s h.1)

find_first : (part rest : Bytes) → IsPart part → find (asked part ++ rest) ≡ some (part, rest)
find_first [] rest h = refl
find_first (c ∷ part) rest h = ground (arith, find_first part rest h.1)

length-parts : (parts : List Bytes) → length parts ≤ length (flat_map asked parts)
unfolding flat_map
length-parts [] = omega arith
length-parts (p ∷ parts) = omega (
  arith,
  length-append (asked p) (flat_map asked parts),
  length-append p (codes "|"),
  length-parts parts,
)

answer_rounds-flat_map :
    (fuel : ℕ) (parts : List Bytes) (rest send : Bytes)
    → All IsPart parts
    → IsPart rest
    → length parts < fuel
    → answer_rounds fuel (flat_map asked parts ++ rest) send
      ≡ some (send ++ flat_map answered parts)
unfolding answer_rounds flat_map
answer_rounds-flat_map zero parts rest send h last enough = absurd (omega arith)
answer_rounds-flat_map (suc fuel) [] rest send h last enough =
    rw (answer_rounds, find_nothing rest last, append-nil) refl
answer_rounds-flat_map (suc fuel) (p ∷ parts) rest send h last enough =
    rw
      (
        answer_rounds,
        append_assoc (asked p) (flat_map asked parts) rest,
        find_first p (flat_map asked parts ++ rest) h.0,
      )
      (answer_rounds-flat_map fuel parts rest ((send ++ p) ++ codes "a|") h.1 last (omega arith)
        ∙ simp append_assoc)

split_answer-flat_map :
    (parts : List Bytes) (rest : Bytes)
    → All IsPart parts
    → IsPart rest
    → split_answer (flat_map asked parts ++ rest) ≡ some (flat_map answered parts)
unfolding split_answer
split_answer-flat_map parts rest h last =
    answer_rounds-flat_map (suc (length (flat_map asked parts ++ rest))) parts rest [] h last
      (omega (arith, length-append (flat_map asked parts) rest, length-parts parts))

length-answered :
    (parts : List Bytes) → length (flat_map answered parts) ≤ 2 * length (flat_map asked parts)
unfolding flat_map
length-answered [] = omega arith
length-answered (p ∷ parts) = omega (
  arith,
  length-append (asked p) (flat_map asked parts),
  length-append (answered p) (flat_map answered parts),
  length-append p (codes "|"),
  length-append p (codes "a|"),
  length-answered parts,
)

length-c_str : (s : Bytes) → length (c_str s) ≤ length s
unfolding c_str
length-c_str [] = omega arith
length-c_str (c ∷ s) = ground (arith, length-c_str s)

-- What recvfrom has given: parts, each with its delimiter, and what comes behind the last one.
pub record Query : Type 0 where
  pub n : ℕ
  pub buffer : Mem
  pub parts : List Bytes
  pub rest : Bytes

pub record IsQuery (q : Query) : Type 0 where
  pub room : q.n < 1024
  pub all_parts : All IsPart q.parts
  pub last_part : IsPart q.rest
  pub text : c_str (slice q.buffer 0 q.n) ≡ flat_map asked q.parts ++ q.rest

abbrev pub given : Query → ℤ × Mem
given q = (pos q.n, q.buffer)

abbrev pub sent : Query → Bytes
sent q = flat_map answered q.parts

serve-sent : (q : Query) → IsQuery q → serve (given q) ≡ some (sent q)
unfolding serve
serve-sent q is =
    let size : length (sent q) < 2048 = omega (
      arith,
      length-answered q.parts,
      length-append (flat_map asked q.parts) q.rest,
      ap length is.text,
      length-c_str (slice q.buffer 0 q.n),
      length-slice q.buffer 0 q.n,
      is.room,
    ) in
    rw
      (
        serve,
        lt→ltb q.n 1024 is.room,
        is.text,
        split_answer-flat_map q.parts q.rest is.all_parts is.last_part,
        lt→ltb (length (sent q)) 2048 size,
      )
      refl

serve_all-sent :
    (queries : List Query)
    → All IsQuery queries
    → serve_all (map given queries) ≡ some (map sent queries)
unfolding serve_all
serve_all-sent [] h = refl
serve_all-sent (q ∷ queries) h = rw (serve_all, serve-sent q h.0, serve_all-sent queries h.1) refl

-- deprecated/server.cpp: it ends with status 1 if a call for its socket fails by the test that the
-- code has for it. Else, of datagrams that leave room for their NUL and are parts without `|`, each
-- followed by one, and a rest without `|`, it answers each with the same parts, each followed by
-- `a|`, and drops the rest; the loop on the delimiters ends, and nothing is written past the arrays.
pub server_program-Ends :
    (net : Net) (queries : List Query)
    → All IsQuery queries
    → Ends
        (IsOpen net (codes "veth2") (codes "10.1.0.3") 1024)
        (λ sends. sends ≡ map sent queries)
        (server_program net (map given queries))
unfolding server_program
server_program-Ends net queries h =
    rw (server_program, serve_all-sent queries h) (open_server-Ends net (map sent queries) refl)
