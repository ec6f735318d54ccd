-- ===== src/Superseded/Api.antt =====
-- deprecated/api.c, the application of the old middlebox. Its strip_keys, strip_key_value and
-- construct_keys_packet have the same text as those of middlebox/src/api.c, but for a message that
-- is printed, and udp_send and the constants of api.h are those of middlebox/: they are taken from
-- there. GROUP_SIZE and MAX_LENGTH stood in a header that is not in the repository any more: they are a record. `none` is an access
-- outside an array, or another failure of Config, Processing and the layers below.
pub mod Sends
pub mod Replies
pub mod Received
pub mod Fanout
pub mod Tidy
pub mod Asks
pub mod Trip
use kernel_bypass_group_proj.Base.{
  ℕ, zero, suc, ◌+◌, ◌-◌, ◌%◌, ◌^◌, Bytes, List, [], ◌∷◌, ◌++◌, Option, none, some, Bool, true,
  false, ◌==◌, ltb, leb, if◌then◌else◌, length, take,
}
use kernel_bypass_group_proj.Base.Results.{◌>>=◌}
use kernel_bypass_group_proj.Config.{
  memcached_req_id_size, memcached_header_size, memcached_tail_size, udp_hdr_size, max_key_length,
  max_req_id, target_ip_text,
}
use kernel_bypass_group_proj.Mem.{Mem, read16, memcpy, slice}
use kernel_bypass_group_proj.Dpdk.{Dpdk, Ptr}
use kernel_bypass_group_proj.World.{World, free, refcnt_update, log, data_of, set_data}
use kernel_bypass_group_proj.Utils.{ip_str_to_int}
use kernel_bypass_group_proj.Udp.{NetSge, udp_send}
use kernel_bypass_group_proj.Api.Keys.{c_str, strip_keys, strip_key_value, construct_keys_packet}
use kernel_bypass_group_proj.Api.Group.{has_key}
use kernel_bypass_group_proj.Api.Payload.{init_net_sge}
use kernel_bypass_group_proj.Clients.{Sending, too_long, overrun, filled, send_payload}
use kernel_bypass_group_proj.Superseded.DynamicArray.{Array, Memory}
use kernel_bypass_group_proj.Superseded.Processing.{
  HashMap, Registry, initialize_map, insert_client_info_to_map, get_from_map,
}

-- the fields of a `struct client_info` that the code sets
pub record ClientInfo : Type 0 where
  pub req_id : ℕ
  pub src_ip : ℕ
  pub src_port : ℕ

pub record Limits : Type 0 where
  pub group_size : ℕ
  pub max_length : ℕ

-- The static variables that are used, with those of processing.c; `ukey_len` is the length of
-- `ukey`.
pub record OldState (Map : Type 0) : Type 0 where
  pub world : World
  pub registry : Registry Map ClientInfo
  pub ukey : List Bytes
  pub request_id : ℕ

-- What init_rcv_app_payload leaves in the caller's array, from its start on, and `msg_len`.
pub record Payload : Type 0 where
  pub bytes : Mem
  pub msg_len : ℕ

-- what uninitialised variables hold: `full_msg`, `buffer`, `key`, the receiving arrays, `result`
pub record Junk : Type 0 where
  pub full_msg : Mem
  pub buffer : Bytes
  pub key : Bytes
  pub received : Mem
  pub result : ℕ

abbrev pub old_strip_key_value : Bytes → Bytes → Bytes → Option (Bool × Bytes)
old_strip_key_value = strip_key_value

abbrev pub old_strip_keys : Bytes → Bytes → Option (List Bytes)
old_strip_keys = strip_keys

abbrev pub old_construct_keys_packet : List Bytes → Bytes
old_construct_keys_packet = construct_keys_packet

module _ (d : Dpdk) (c : Limits) where
  unfoldable pub receive : World → Ptr → ℕ → Mem → World × Option Payload
  unfolding init_net_sge
  receive w p udph app_buf =
      let (w1, e) = init_net_sge d w p udph in
      let total_len = e.len % 2 ^ 16 in
      (
        w1,
        if ltb c.max_length e.len
            then none
            else some (record {
              bytes = memcpy app_buf 0 (λ i. data_of w1 p (udph + udp_hdr_size + i)) total_len;
              msg_len =
                  (total_len
                    + 2 ^ 16
                    - (memcached_tail_size + memcached_header_size + memcached_req_id_size))
                  % 2 ^ 16;
            }),
      )

  -- the message of a payload; `none` for one that wraps and reaches past the array
  unfoldable pub message_of : Payload → Option Bytes
  message_of ap =
      if ltb c.max_length (memcached_req_id_size + memcached_header_size + ap.msg_len)
      then none
      else some (slice ap.bytes (memcached_req_id_size + memcached_header_size) ap.msg_len)

  unfoldable pub old_app_send : Junk → World → Ptr → ℕ → Bytes → ℕ → ℕ → Option World
  unfolding init_net_sge send_payload
  old_app_send junk w p udph message req_id destination_ip =
      let (w1, e) = init_net_sge d w p udph in
      elim (send_payload c.max_length junk.full_msg message req_id) [
        | too_long ↦ some (log w1 (free e.handle))
        | overrun ↦ none
        | filled total_len full_msg ↦
            let w2 =
              set_data w1 p (memcpy (data_of w1 p) (udph + udp_hdr_size) full_msg total_len) in
            elim (udp_send d w2 (record e { len = total_len }) destination_ip) [
              | none ↦ none
              | some (_, w3) ↦ some w3
            ]
      ]

  -- the loop of app_server_in over the clients of the table
  pub reply_to : Junk → Ptr → ℕ → Bytes → List ClientInfo → World → Option World
  unfolding old_app_send
  reply_to junk p udph reply [] w = some w
  reply_to junk p udph reply (client ∷ clients) w =
      old_app_send junk w p udph reply client.req_id client.src_ip
      >>= (λ w1. reply_to junk p udph reply clients w1)

  -- Into an array of GROUP_SIZE rows.
  unfoldable pub insert_ukey : Bytes → List Bytes → Option (List Bytes)
  unfolding has_key
  insert_ukey key ukey =
      if has_key key ukey
      then some ukey
      else if ltb (length ukey) c.group_size
      then some (ukey ++ key ∷ [])
      else none

module _ (d : Dpdk) (h : HashMap) (mem : Memory ClientInfo) (c : Limits) (junk : Junk) where
  -- The array `payload` has MAX_LENGTH bytes.
  unfoldable pub old_send_group : Ptr → ℕ → OldState h.Map → Option (OldState h.Map)
  unfolding construct_keys_packet old_app_send
  old_send_group p udph s =
      let payload = old_construct_keys_packet s.ukey in
      if ltb (length payload) c.max_length
      then old_app_send d c junk (log s.world (refcnt_update p 1)) p udph payload s.request_id
          (ip_str_to_int d target_ip_text)
        >>= (λ w.
            some (record s { world = w; request_id = (s.request_id + 1) % max_req_id; ukey = [] }))
      else none

  -- one round of the `for` loop of app_client_in
  unfoldable pub old_add_key :
      Ptr → ℕ → ClientInfo → Bytes → OldState h.Map → Option (OldState h.Map)
  unfolding insert_client_info_to_map insert_ukey old_send_group
  old_add_key p udph client_data key s =
      insert_client_info_to_map h mem max_key_length s.registry key s.request_id client_data
      >>= (λ registry. insert_ukey d c key s.ukey >>= (λ ukey.
          let s1 = record s { registry = registry; ukey = ukey } in
          if leb c.group_size (length ukey) then old_send_group p udph s1 else some s1))

  pub old_add_keys : Ptr → ℕ → ClientInfo → List Bytes → OldState h.Map → Option (OldState h.Map)
  unfolding old_add_key
  old_add_keys p udph client_data [] s = some s
  old_add_keys p udph client_data (key ∷ keys) s =
      old_add_key p udph client_data key s >>= (λ t. old_add_keys p udph client_data keys t)

  -- once the payload has been read
  unfoldable pub register_keys : Ptr → ℕ → ℕ → Payload → OldState h.Map → Option (OldState h.Map)
  unfolding message_of strip_keys old_add_keys
  register_keys p udph client_address ap s =
      let client_data : ClientInfo = record {
        req_id = read16 ap.bytes 0;
        src_ip = client_address;
        src_port = read16 (data_of s.world p) (udph + 2);
      } in
      message_of d c ap >>= (λ message. old_strip_keys junk.buffer message >>= (λ keys.
        old_add_keys p udph client_data keys
          (record s { registry = initialize_map h mem max_key_length s.registry })
        >>= (λ t. some (record t { world = log t.world (free p) }))))

  unfoldable pub old_client_in : Ptr → ℕ → ℕ → OldState h.Map → Option (OldState h.Map)
  unfolding receive register_keys
  old_client_in p udph client_address s =
      let (w, o) = receive d c s.world p udph junk.received in
      elim o [
        | none ↦ some (record s { world = log w (free p) })
        | some ap ↦ register_keys p udph client_address ap (record s { world = w })
      ]

  -- once the key is known
  unfoldable pub answer_clients :
      Ptr → ℕ → Bytes → ℕ → Bytes → OldState h.Map → Option (OldState h.Map)
  unfolding get_from_map reply_to c_str
  answer_clients p udph key req_id reply s =
      get_from_map h mem max_key_length s.registry (c_str key) req_id junk.result >>= (λ found.
        let client_data = found.1.tables found.0 in
        if ltb (length client_data.array) client_data.used
        then none
        else reply_to d c junk p udph (c_str reply) (take client_data.used client_data.array)
            (log s.world (refcnt_update p ((client_data.used + 2 ^ 16 - 1) % 2 ^ 16)))
          >>= (λ w. some (record s { world = w; registry = found.1 })))

  unfoldable pub old_server_in : Ptr → ℕ → OldState h.Map → Option (OldState h.Map)
  unfolding receive message_of strip_key_value answer_clients
  old_server_in p udph s =
      let (w, o) = receive d c s.world p udph junk.received in
      elim o [
        | none ↦ some (record s { world = log w (free p) })
        | some ap ↦
            old_strip_key_value junk.key (c_str (slice ap.bytes 8 (c.max_length - 8)))
              (slice ap.bytes 8 ap.msg_len)
            >>= (λ found.
                if found.0
                then message_of d c ap >>= (λ message.
                  answer_clients p udph found.1 (read16 ap.bytes 0) message
                    (record s { world = w }))
                else some (record s { world = log w (free p) }))
      ]
