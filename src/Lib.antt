-- ===== src/Lib.antt =====
-- resolvd: the DNS resolver daemon. This library models its core: the DNS codec, the answer cache,
-- the resolution engine, and the messages by which clients ask it.
--
-- The engine takes questions, replies and the time, and returns actions (send a query, cancel one,
-- report an answer); it does no I/O. It routes a name to a scope (an interface's DNS configuration),
-- asks the cache, sends queries that the codec encodes, and takes from a reply that the codec decodes
-- what answers the question. Clients of the native socket send a request and receive a reply, both
-- maps of MessagePack in a frame with a length; the daemon queues a reply whose peer is slow. Clients
-- that speak DNS ask the stub, which parses their queries and builds their replies with the codec.
--
--   Dns       dns/src/lib.rs. `Dns.Name`: Name, its parsing and its equality. `Dns.Wire`: Name::read
--             and Name::write. `Dns.Case`: randomise_case. `Dns.Header`, `Dns.Records`, `Dns.Message`:
--             the parts of a message, encode, decode, encode_udp. `Dns.Reverse`: reverse_v4,
--             reverse_v6, reverse_address. `Dns.Display`: Display for Name.
--   Cache     resolvd/src/cache.rs: Cache::get, insert, flush_scope, clear.
--   Engine    resolvd/src/engine.rs. `State`: the data. `Routing`: up_scopes, exclusive, route,
--             servers_of, candidates, server_key, demote. `Local`: synthetic and own_addresses.
--             `Replies`: same_case, negative_ttl, relevant_records, chase, combine. `Settle`: settle
--             and send. `Attempts`: next_attempt, next_candidate, advance. `Inputs`:
--             matching_response, received, failed, local_failed, tick. `Questions`: resolve, lookup,
--             reverse, abandon, and the setters. `Invariant`: what every operation keeps. `Runs`:
--             with_entropy, and executions as lists of calls. `Views`: next_deadline, demoted,
--             in_flight, cache_entries.
--   Msgpack   resolvd-core/src/msgpack.rs. Writer as functions that give the bytes written; `Reader`:
--             Reader and its reads; `Skip`: skip and nested.
--   Native    resolvd-core/src/lib.rs: WireError, Family, Outcome and Validation as texts.
--             `Fields`: for_each_field. `Request`, `Reply`, `Messages`, `Parts`, `Lists`: the
--             messages, their encode and decode. `Framing`: send, recv, call.
--   AcceptBackoff, ReplyQueue
--             resolvd/src/accept_backoff.rs and resolvd/src/reply_queue.rs.
--   Stub      resolvd/src/stub.rs: parse_query, build_reply, the bytes of an answer; `ReplyTo`: what a
--             reply owes to its query; `Clients`: the TCP clients, with what each read gives as an argument.
--   Net       std::net::IpAddr and the clock, as the program uses them.
--   Prelude   shared helpers: numbers, lists, slices of bytes, results, tables.
--   Tests     the examples of the theorems, and tests.
--
-- An operation of the engine takes the engine last and returns the engine it leaves with its actions,
-- in the order of the code. Fallible code returns a Result, whose third case `stuck` is what a loop
-- returns when the model's fuel runs out. Name::read loops on fuel 320, above its 64 pointers and 127
-- labels. Reader::skip recurs on 33 levels, above its depth limit of 32. A Reader is the bytes that
-- are left and the depth. A HashMap is an association list in some order. A number has no bound but
-- where the code's type cuts it, which is written out or is a condition of a theorem. An instant is a
-- count of nanoseconds. `next_candidate`, which recurs on the candidates of its own task, is a recursion on
-- the list of these.
--
-- Parameters of the model: the entropy source, as what each of its calls gives, and the order of
-- netd's levels (`Levels`); the text of an IP address in the standard library (`IpText`), which is short
-- UTF-8 and parses back; the streams that messages are framed on and that replies are written to (the
-- two records `Stream`), which keep the order of the bytes.
--
-- Not modelled: sockets, threads, files, the registry and logging; the batches of socket
-- calls of the stub, the control listener, the client libraries and the NSS module; the textual forms
-- of record types and data.
pub mod Prelude
pub mod Net
pub mod Dns
pub mod Cache
pub mod Engine
pub mod Msgpack
pub mod Native
pub mod AcceptBackoff
pub mod ReplyQueue
pub mod Stub
pub mod Tests
