-- ===== src/Tests/Load.antt =====
-- The clients, the port, and the growing array, on concrete inputs.
use kernel_bypass_group_proj.Base.{
  ℕ, ◌+◌, ◌*◌, ◌≤◌, ◌≡◌, ◌↔◌, refl, ap, Bytes, List, [], ◌∷◌, some, true, leb, arith, length, codes,
}
use kernel_bypass_group_proj.Base.Int.{ℤ, pos}
use kernel_bypass_group_proj.Mem.{Mem, slice}
use kernel_bypass_group_proj.Api.Payload.{AppPayload, init_rcv_app_payload, extract_info}
use kernel_bypass_group_proj.Clients.{random_id, send_app_payload}
use kernel_bypass_group_proj.Clients.Datagram.{Result, send_app_payload_lem}
use kernel_bypass_group_proj.Clients.Receive.{init_rcv_app_payload-datagram}
use kernel_bypass_group_proj.Clients.Random.Keys.{IsRow}
use kernel_bypass_group_proj.Port.{EthDev, port_init}
use kernel_bypass_group_proj.Port.Started.{IsStarted, all_calls, port_init-IsStarted}
use kernel_bypass_group_proj.Superseded.DynamicArray.{
  Array, Memory, init_array, insert_all, elements,
}
use kernel_bypass_group_proj.Superseded.DynamicArray.Grow.{IsPlentiful, insert_all-init_array}
use kernel_bypass_group_proj.Tests.{frame, request_bytes, foo-IsByteKey, bar-IsByteKey}

-- elements of 8 bytes, in a memory that gives up to 800 bytes
abbrev pub memory : Memory ℕ
memory = record { element_size = 8; has_room = λ bytes. leb bytes 800; garbage = 0 }

pub memory-IsPlentiful : IsPlentiful memory 100
memory-IsPlentiful = record {
  sized = omega arith;
  representable = omega arith;
  met = λ bytes h. ground arith;
}

insert_all_example :
    (a : Array ℕ) × (insert_all memory (init_array memory 1) (3 ∷ 5 ∷ 7 ∷ []) ≡ some a)
    × (elements a ≡ 3 ∷ 5 ∷ 7 ∷ [])
    × (a.used ≡ 3)
    × (length a.array ≡ a.size)
    × (a.used ≤ a.size)
    × (a.size ≤ 7)
insert_all_example =
    insert_all-init_array memory 100 memory-IsPlentiful 1 (3 ∷ 5 ∷ 7 ∷ []) (omega arith)
      (omega arith) (omega arith)

-- the message of the client, and what its calls of rand and recvfrom give
abbrev pub client_message : Bytes
client_message = codes "get foo"

abbrev pub some_rand : ℕ → ℕ
some_rand n = n * 7 + 3

abbrev pub some_replies : ℕ → ℤ × Mem
some_replies i = (pos 20, λ j. 65)

abbrev pub zeros : Mem
zeros i = 0

send_app_payload_example :
    Result 1448 client_message (random_id 9) (send_app_payload 1448 zeros client_message 9)
send_app_payload_example =
    send_app_payload_lem 1448 zeros client_message 9 (omega arith) (omega arith)

abbrev pub words : List Bytes
words = codes "foo" ∷ codes "bar" ∷ []

pub foo-IsRow : IsRow (codes "foo")
foo-IsRow = record {
  key = foo-IsByteKey.0;
  row = omega arith;
  not_newline = λ e. omega (arith, ap length e);
}

pub bar-IsRow : IsRow (codes "bar")
bar-IsRow = record {
  key = bar-IsByteKey.0;
  row = omega arith;
  not_newline = λ e. omega (arith, ap length e);
}

received_example :
    (ap : AppPayload) × (init_rcv_app_payload (frame request_bytes) 34 ≡ some ap)
    × (extract_info (frame request_bytes) ap.req_id ≡ 7)
    × (slice (frame request_bytes) ap.payload ap.msg_len ≡ codes "get foo")
received_example =
    init_rcv_app_payload-datagram (frame request_bytes) 34 7 (codes "get foo") (omega arith)
      (omega arith) refl refl

-- a port where every call succeeds
abbrev pub device : EthDev
device = record {
  is_valid_port = λ port. true;
  info_get = λ port. (pos 0, record { fast_free = true });
  configure = λ port rx tx free. pos 0;
  adjust_nb_rx_tx_desc = λ port rx tx. (pos 0, rx, tx);
  rx_queue_setup = λ port queue size. pos 0;
  tx_queue_setup = λ port queue size free. pos 0;
  start = λ port. pos 0;
  macaddr_get = λ port. pos 0;
}

port_init_example :
    (((port_init device 2).0 ≡ pos 0) ↔ IsStarted device 2)
    × ((port_init device 2 ≡ (pos 0, all_calls device 2)) ↔ IsStarted device 2)
port_init_example = port_init-IsStarted device 2
