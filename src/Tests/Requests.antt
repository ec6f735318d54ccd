-- ===== src/Tests/Requests.antt =====
-- Examples of the requests to the server: the keys, the group and the frames.
use kernel_bypass_group_proj.Base.{
  ℕ, ◌+◌, ◌≡◌, refl, Bytes, List, [], ◌∷◌, ◌++◌, some, true, false, ◌||◌, bytes_eq, if◌then◌else◌,
  arith, length, All, codes,
}
use kernel_bypass_group_proj.Config.{target_ip_text}
use kernel_bypass_group_proj.Mem.{Mem}
use kernel_bypass_group_proj.World.{World}
use kernel_bypass_group_proj.World.Laws.{Sent}
use kernel_bypass_group_proj.Utils.{ip_str_to_int}
use kernel_bypass_group_proj.Udp.Send.{IsDatagram}
use kernel_bypass_group_proj.Api.Keys.{c_str, strip_keys, construct_keys_packet}
use kernel_bypass_group_proj.Api.Keys.Size.{packed}
use kernel_bypass_group_proj.Api.Keys.RoundTrip.{strip_keys-construct_keys_packet}
use kernel_bypass_group_proj.Api.Keys.Words.{
  words_behind, behind_first, all_fit, repeated, strip_keys_lem,
}
use kernel_bypass_group_proj.Api.Payload.{app_send, extract_info}
use kernel_bypass_group_proj.Api.Payload.Send.{IsRequest, app_send-IsRequest, app_send-forwards}
use kernel_bypass_group_proj.Api.Group.{has_key, insert_ukey_group}
use kernel_bypass_group_proj.Api.Group.Pigeons.{Distinct}
use kernel_bypass_group_proj.Api.Group.Bounds.{IsByteKey, insert_ukey_group_lem}
use kernel_bypass_group_proj.Api.Flush.{construct_pkt_and_send_to_server}
use kernel_bypass_group_proj.Api.Flush.Sends.{
  requested, Asked, construct_pkt_and_send_to_server_full,
}
use kernel_bypass_group_proj.Tests.{
  toy, world, state, frame, reply_bytes, client_ip, not_empty, foo-IsByteKey, bar-IsByteKey,
  baz-IsByteKey, state-IsGroup, state-IsReady, local_small, target_small, server_known,
  client_known,
}

keys_example :
    strip_keys (codes "??") (construct_keys_packet (codes "foo" ∷ codes "bar" ∷ []))
    ≡ some (codes "foo" ∷ codes "bar" ∷ [])
keys_example =
    strip_keys-construct_keys_packet (codes "??") (codes "foo" ∷ codes "bar" ∷ []) not_empty
      (foo-IsByteKey.0, (bar-IsByteKey.0, tt)) (ground arith)

-- The request `gets foo` under the id 5, to the server.
request_example :
    (w : World) × (f : Mem) × (app_send toy world 2 34
        (codes "gets foo")
        5
        (ip_str_to_int toy target_ip_text)
        true
      ≡ some w)
    × Sent world 2 f 60 w
    × IsDatagram toy f f (λ i. 3) (ip_str_to_int toy target_ip_text) 18
    × IsRequest f 5 (codes "gets foo")
request_example =
    app_send-IsRequest toy world 2 (ip_str_to_int toy target_ip_text) 5 (λ i. 3) server_known
      target_small local_small (codes "gets foo") (ground arith) (omega arith)

-- The reply in the buffer 1, to the client 10.1.0.4 under its id 7.
forward_example :
    (w : World) × (f : Mem) × (app_send toy world 1 34 [] 7 client_ip false ≡ some w)
    × Sent world 1 f 65 w
    × IsDatagram toy f f (λ i. 4) client_ip 23
    × (extract_info f 42 ≡ 7)
    × ((i : ℕ) → f (44 + i) ≡ frame reply_bytes (44 + i))
forward_example =
    app_send-forwards toy world 1 client_ip 7 (λ i. 4) client_known (omega arith) local_small
      (ground arith) (omega arith)

-- A third key.
insert_example :
    (ks : List Bytes) × (n : ℕ) × (insert_ukey_group (codes "baz") state
      ≡ some (record state { ukey = ks; total_ukey_size = n }))
    × Distinct ks
    × All IsByteKey ks
    × (n + length ks ≡ packed ks)
    × ((j : Bytes) → has_key j ks ≡ (has_key j state.ukey || bytes_eq j (codes "baz")))
    × (ks
        ≡ (if has_key (codes "baz") state.ukey then state.ukey else state.ukey ++ codes "baz" ∷ []))
insert_example = insert_ukey_group_lem state (codes "baz") state-IsGroup baz-IsByteKey

-- After two spaces, the key before them is read a second time.
words_example :
    strip_keys (codes "??") (codes "get foo  bar")
    ≡ some (codes "foo" ∷ codes "foo" ∷ codes "bar" ∷ [])
unfolding behind_first words_behind all_fit repeated c_str
words_example = strip_keys_lem (codes "??") (codes "get foo  bar")

-- A request of a client ends with a line break, which strip_keys leaves in the last key.
strip_test : strip_keys [] (codes "get foo bar\r\n") ≡ some (codes "foo" ∷ codes "bar\r\n" ∷ [])
unfolding strip_keys c_str
strip_test = refl

-- `gets foo`, and `bar` stays
full_example :
    (w : World) × (construct_pkt_and_send_to_server true state
      ≡ some (requested state w (codes "foo" ∷ []) (codes "bar" ∷ [])))
    × Asked state (λ i. 3) (codes "foo" ∷ []) w
full_example =
    construct_pkt_and_send_to_server_full state-IsReady (codes "foo" ∷ []) (codes "bar") refl
      (omega arith)
