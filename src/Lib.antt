-- ===== src/Lib.antt =====
-- The runtime library of the Mux language (src/*.rs): a model of its data structures, its integer
-- scalars, its byte buffers, its command-line parser, its synchronisation primitives, its JSON
-- documents and the frames, routes and request bodies of its network module, with the theorems that
-- make them correct.
--
-- Common holds the shared names: Boolean tests, vectors as lists, results, 64-bit integers, and `|`
-- of numbers without common digits.
--
-- Ordered models src/ordered.rs. Ordered.Map has the slab, the links and the operations new, get,
-- insert, remove and clear of OrderedMap; Ordered.Iter the borrowing and the consuming iterator;
-- Ordered.Set the set over it; Ordered.Equality `PartialEq`. The hash table of the hashbrown crate
-- is the interface Ordered.Table.HashTable: its operations with the documented laws of find,
-- insert_unique and remove_entry. Ordered.Spec is the abstract view, a list of pairs in insertion
-- order; Chain, Rep, Unique, Insert, Remove and Reads relate the links to it, and Ordered.Run joins
-- them.
--
-- Scalar models src/byte.rs (Scalar.Byte), src/int.rs (Scalar.Int) and the integer functions of
-- src/math.rs (Scalar.Math). An i64 is an integer, and where release arithmetic wraps, `wrap_i64`
-- writes it out.
--
-- Bytes models src/bytes.rs. A pointer is an optional value; an operation that writes in place
-- returns the value it leaves. Bytes.Buffer has the operations on a whole buffer, Bytes.Uint the
-- fixed-width numbers, Bytes.Varint the variable-length ones, Bytes.Format the text form, and
-- Bytes.Cursor the table of cursors with the counting of their handles. A float is its 64 bits.
--
-- Cli models the parsing part of src/cli.rs: Cli.Token splits a response file into words,
-- Cli.Response expands `@file` arguments within a budget, Cli.Options finds and records options,
-- Cli.Parse is the argument loop with subcommands, and Cli.Finish the defaults, the callbacks and
-- the checks behind it. Files, the environment, character classes, the UTF-8 decoder and the
-- compiled callbacks are the record Cli.Host.Host, and the table of parsers is given with it.
--
-- Sync models src/sync_primitives.rs. Sync.Handles has the tables of counted handles, and its child
-- the interleavings of copies and drops; Sync.Atomic the atomics and the cancellation tokens;
-- Sync.Semaphore, Sync.Once, Sync.Channel and Sync.Pool what a thread does under a lock, as
-- functions, and their children Waiting, Traffic and Workers the threads, as step relations with a
-- state that counts the threads at each place. A wait on a condition variable may end for no
-- reason.
--
-- Net models three parts of src/net.rs. Net.WebSocket has the frames on the wire, its children the
-- assembly of fragments and the reader of a session over a socket's input and output. Net.Route has
-- the patterns of a router, Net.Route.Match their matching, registration and choice; a string is
-- the list of its bytes (Common.Text). Net.Body has the bodies of HTTP requests, a connection being
-- what its reads give; Net.Body.Chunked the chunks, the trailers and the choice of the framing. The
-- masking key is an argument and the validity of UTF-8 a parameter.
--
-- Json models documents as values and what src/json.rs does with them. Json.Value has `Value` of
-- src/lib.rs, with lists and ordered maps in one block with it, and `Json`, and its child Abstract
-- relates the maps to Ordered.Spec; Json.Equality `==`; Json.Numbers the table that keeps the spelling
-- of a number behind an object, which Json.Convert, the two conversions, reads and adds to;
-- Json.Token the text of a pointer; Json.Pointer the operations through one, each as a step to a
-- child and a write through the borrow; Json.Patch the operations of a patch, the patch as a whole
-- and the calls on a document; Json.Merge the merge patch. The record Json.Equality.Host stands for
-- what is outside: equalities of floats, objects and boxed enums, the validity of UTF-8, and the map
-- of the indexmap crate; it also carries the table of numbers at the time of a call.
--
-- Fuel: `gcd`, `isqrt` and `int_pow` take the fuel that their theorems show to be enough; the
-- iterators of the map take one round more than there are entries; ten rounds encode a 64-bit
-- varint; the argument loop has one round more than there are arguments, since every round moves
-- the index on. Levels of response files are the nine that the code allows. The reader of a session
-- takes as many rounds as there are bytes of input, and one. Subcommands take fuel that the caller
-- gives. The loop over chunks has one round more than the body may have bytes, since each chunk but
-- the last holds one.
--
-- Not modelled: the allocation and counting of values, the I/O, database, cryptography, date and
-- process modules, what src/net.rs does with sockets and the rest of HTTP, threads and locks beyond
-- the primitives above, floats beyond their bits, the text of JSON beyond pointers, and the
-- configuration and help text of the command-line parser.
pub mod Bytes
pub mod Cli
pub mod Common
pub mod Json
pub mod Net
pub mod Ordered
pub mod Scalar
pub mod Sync
