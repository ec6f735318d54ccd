-- ===== src/Tests/Programs.antt =====
-- The clients and the old server from their starts on, on concrete inputs.
use mathlib.Core.List.{map, flat_map}
use kernel_bypass_group_proj.Base.{
  ◌+◌, ◌≤◌, ◌≡◌, refl, Bytes, List, [], ◌∷◌, arith, length, codes, All,
}
use kernel_bypass_group_proj.Base.Int.{pos}
use kernel_bypass_group_proj.Api.Keys.{c_str}
use kernel_bypass_group_proj.Sockets.{Net}
use kernel_bypass_group_proj.Sockets.Ends.{IsOpen, Ends}
use kernel_bypass_group_proj.Clients.Run.{reply, Progress}
use kernel_bypass_group_proj.Clients.Random.Keys.{AsksFor}
use kernel_bypass_group_proj.Clients.Old.Resends.{Resent, text}
use kernel_bypass_group_proj.Clients.Program.{
  client_program, rand_client_program, old_client_program,
}
use kernel_bypass_group_proj.Clients.Program.Runs.{
  IsCalledFour, IsCalledThree, client_program-Ends, rand_client_program-Ends,
  old_client_program-Ends,
}
use kernel_bypass_group_proj.Superseded.Server.{server_program}
use kernel_bypass_group_proj.Superseded.Server.Answer.{
  Query, IsQuery, given, sent, server_program-Ends,
}
use kernel_bypass_group_proj.Tests.{frame, avoids-All, not_empty}
use kernel_bypass_group_proj.Tests.Load.{
  client_message, some_rand, some_replies, zeros, words, foo-IsRow, bar-IsRow,
}

-- a system where every call succeeds
abbrev net : Net
net = record { socket = pos 3; setsockopt = λ name size. pos 0; bind = λ ip port. pos 0 }

abbrev four : List Bytes
four = codes "client" ∷ codes "veth1" ∷ codes "10.1.0.4" ∷ client_message ∷ []

abbrev three : List Bytes
three = codes "client" ∷ codes "veth1" ∷ codes "10.1.0.4" ∷ []

four_short : All (λ a. length a + 10 ≤ 1448) four
four_short = (omega arith, (omega arith, (omega arith, (omega arith, tt))))

client_program_example :
    Ends
      (IsCalledFour net four)
      (λ s. (called : IsCalledFour net four) × Progress (λ m. m ≡ called.value.2) 100000 400000 s)
      (client_program net four some_rand some_replies zeros)
client_program_example =
    client_program-Ends net four some_rand some_replies zeros four_short
      (λ i. reply 20 (λ j. 65) (omega arith) (omega arith))

rand_client_program_example :
    Ends
      (IsCalledThree net three)
      (λ s. IsCalledThree net three × Progress (AsksFor (codes "junk") words) 1000 4000 s)
      (rand_client_program net three words some_rand some_replies zeros)
rand_client_program_example =
    rand_client_program-Ends net three (codes "junk") words some_rand some_replies zeros
      (foo-IsRow, (bar-IsRow, tt)) not_empty (omega arith)
      (λ i. reply 20 (λ j. 65) (omega arith) (omega arith))

old_client_program_example :
    Ends
      (IsCalledFour net four)
      (λ s. (called : IsCalledFour net four) × Resent called.value.2 200 200 s)
      (old_client_program net four some_replies)
old_client_program_example =
    old_client_program-Ends net four some_replies (λ i. text 20 (λ j. 65) (omega arith))

-- two parts and a rest
abbrev query : Query
query = record {
  n = 7;
  buffer = frame (codes "ab|c|de");
  parts = codes "ab" ∷ codes "c" ∷ [];
  rest = codes "de";
}

query-IsQuery : IsQuery query
unfolding c_str flat_map
query-IsQuery = record {
  room = omega arith;
  all_parts = (avoids-All b'|' (codes "ab") refl, (avoids-All b'|' (codes "c") refl, tt));
  last_part = avoids-All b'|' (codes "de") refl;
  text = refl;
}

server_program_example :
    Ends
      (IsOpen net (codes "veth2") (codes "10.1.0.3") 1024)
      (λ sends. sends ≡ map sent (query ∷ []))
      (server_program net (map given (query ∷ [])))
server_program_example = server_program-Ends net (query ∷ []) (query-IsQuery, tt)
