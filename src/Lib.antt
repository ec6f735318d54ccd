-- ===== src/Lib.antt =====
-- The middlebox (middlebox/ in the repository): a program on DPDK that stands between the clients
-- of a memcached server and that server. It takes the `get` requests of many clients, merges their
-- keys into requests of its own, sends each server reply to every client that asked for its key,
-- and answers ARP.
--
-- A frame comes in through lcore_main and eth_in, goes up through ip_in and udp_in, and ends in
-- app_client_in (a client's request) or app_server_in (a server's reply). Both send through
-- app_send, udp_send, udp_out, ip_out, eth_out and dpdk_eth_send. What they share is the static
-- state of api.c: the group of keys to be sent, a hash table from a signature (request id and key)
-- to the chain of packets that wait for it, and a circular queue of signatures for eviction.
--
-- Files, and the code that they model:
--
-- - Base, Base/Tests, Base/Lists, Base/Int: library names passed on, tests and lists over the
--   native numbers, and the integers of results. Base/Results: what holds of a result, if there is
--   one.
-- - Config: the constants of middlebox/inc/config.h and middlebox/inc/api.h.
-- - Mem: the bytes of a packet buffer and the reads and writes of numbers in network order.
-- - Dpdk: what the program takes from DPDK, as the record Dpdk of operations, and the record Laws
--   of what is relied on.
-- - World: packet buffers, the trace of events (transmit, free, refcnt_update) and the ARP table.
--   World/Laws: reading behind writes.
-- - Utils: middlebox/src/utils.c. Utils/Text: printing and reading addresses; Utils/Dump: pkt_dump;
--   Utils/EthAddr: str_to_eth_addr.
-- - Eth, Eth/Frame: the sending half of middlebox/src/eth.c.
-- - Arp: middlebox/src/arp.c. Arp/Table is about its table, Arp/Answer about its answers.
-- - Ip: ip_out of middlebox/src/ip.c. Udp, Udp/Send: the sending half of middlebox/src/udp.c.
-- - Api/State: the static variables of middlebox/src/api.c, as a record State, and their first
--   values; with them the copies of a buffer, as one buffer or as a chain of segments in buffers of
--   SMALL_MBUFS_SIZE bytes.
-- - Api/Keys: strip_keys, strip_key_value and construct_keys_packet; Api/Keys/RoundTrip, Words,
--   Reply, Size and Short are about them. Api/Signature: the text that key_hold holds.
-- - Api/Payload, Api/Payload/Send: struct app_payload, init_rcv_app_payload,
--   init_send_app_payload, init_net_sge, app_send.
-- - Api/Group: insert_ukey_group; Api/Group/Pigeons and Bounds: why the group stays in its array.
-- - Api/Flush, Api/Flush/Sends: construct_pkt_and_send_to_server.
-- - Api/Client: app_client_in, its loop body as add_key; Api/Client/Queue: its table and queue;
--   Api/Client/Same: what a registration leaves alone; Api/Client/Add: a whole round of the loop;
--   Api/Client/Start: the state before the first packet; Api/Client/Refused: a key that the hash
--   table has no place for.
-- - Api/Server: app_server_in and refresh_backlog; Api/Server/Deliver: the loop over the chain;
--   Api/Server/Steer: the whole handler; Api/Server/Backlog: refresh_backlog; Api/Server/Track:
--   the accounting of requests; Api/Server/Later: the later datagrams of a reply.
-- - Api/Sound and its children: what holds of the state throughout, kept by the group, the
--   clients' and the server's side. Api/Trip: a request of a client up to its reply.
-- - Api/Run: what clients are owed over a whole run; Api/Run/Compose: how its steps follow one
--   another; Api/Run/Flush, Register, Keys and Client: that each step does not fail.
-- - Receive: eth_in, ip_in, udp_in, and lcore_main of middlebox/src/middlebox.c; Receive/Dispatch:
--   the three layers at once; Receive/Sound: the main loop from the start; Receive/Run and
--   Receive/Run/Loop: the main loop with clients; Receive/Trip: the frame of a request up to the
--   frame of its reply.
-- - Main: main of middlebox/src/middlebox.c; Main/Boots: what has gone well when the main loop
--   runs; Main/Serves: the whole program with clients.
-- - Typed: the C types of the variables and the bytes of memory; Typed/Network, Copies, Client,
--   Server and Loop: that what the layers below, the copies of buffers, the clients' and the
--   server's side and the main loop write is of its type; Api/Keys/Text: that the keys are bytes.
-- - Port: port_init of middlebox/src/dpdk_init.c; Port/Started: when it succeeds.
-- - Clients: client/client.cpp, with the arguments that set rand_client/client.cpp apart;
--   Clients/Datagram: what is sent; Clients/Run: a whole run; Clients/Receive: a client's datagram
--   in the middlebox; Clients/Random and Clients/Random/Keys: rand_client/client.cpp; Clients/Old
--   and Clients/Old/Resends: the loops of client/old_client.cpp; Clients/Program and
--   Clients/Program/Runs: the three clients from their command lines on.
-- - Sockets, Sockets/Ends: the setup of a socket that the clients and the old server share, and
--   how a program with one ends.
-- - Superseded/DynamicArray: deprecated/dynamic_array.c; Superseded/DynamicArray/Grow: the list
--   that the array stands for. Superseded/Processing: deprecated/processing.c;
--   Superseded/Processing/Lookup: what is found of what was stored. Superseded/Api:
--   deprecated/api.c; Superseded/Api/Sends: its app_send; Superseded/Api/Received: what it reads
--   of a datagram; Superseded/Api/Replies and Fanout: the replies to the clients;
--   Superseded/Api/Asks: the request for a full group; Superseded/Api/Tidy: the group between two
--   requests; Superseded/Api/Trip: a client's key up to its reply. Superseded/Server,
--   Superseded/Server/Answer: deprecated/server.cpp.
-- - Tests and its children: a concrete Dpdk and State, with examples.
--
-- Conventions. A buffer is named by a number, NULL is 0, and its data is a function from offsets
-- to bytes; pointers into a packet are offsets. Widths of integers are written out as remainders.
-- An Option result is none where the C program would fail an assert, read a NULL pointer or write
-- past an array. The chain of clients is followed with fuel; as many rounds as the chain has
-- buffers are enough. What uninitialised arrays hold is an argument. The reference counts of
-- buffers are not computed: a release and a change of the count are events of the trace.
--
-- Not modelled: the loop on rte_eth_tx_burst, which is one event, as it ends only when the buffer
-- has been taken; the branch of PROGRAM_TIMEOUT, which is -1; what the programs print but for
-- pkt_dump, and the waits of the clients between two messages. deprecated/map.c is a copy of
-- another project's library: its operations are a parameter. The headers that deprecated/ was built
-- with are not in the repository: the constants and the fields that the code uses are parameters or
-- those of middlebox/. scripts/ has shell scripts, and tests/ copies of the headers and binaries of
-- the middlebox with clients for integration tests.
pub mod Base
pub mod Config
pub mod Mem
pub mod Dpdk
pub mod World
pub mod Utils
pub mod Eth
pub mod Arp
pub mod Ip
pub mod Udp
pub mod Api
pub mod Receive
pub mod Main
pub mod Typed
pub mod Port
pub mod Sockets
pub mod Clients
pub mod Superseded
pub mod Tests
