-- ===== src/Lib.antt =====
-- Might I Get Pwned: the credential checking protocol of pkg/migp, the password mutator of
-- pkg/mutator, and the server and client programs of cmd, as functions, and their correctness.
--
-- The parts and the files that model them:
--
-- - pkg/mutator. `RDasMutator.Mutate` runs the rules of a fixed table on a password and keeps the
--   results with new hashes, up to a count. Mutator/Rule and Mutator/Table hold the rules and the
--   table of dasrules.go (Table/First, Middle, Last: in the order of the source), Mutator/Case
--   `switchCase` and `changeCap`, Mutator/Edit `deletePortion` and `insert`, Mutator/Substitute
--   `substitute`, and Mutator/Mutate the loop. murmur3.Sum32 is a parameter.
-- - pkg/migp. Protocol/Common is common.go, Protocol/Encryptor encryptor.go, Protocol/Hasher
--   hasher.go and slowhasher.go, Protocol/Server server.go and Protocol/Client client.go. A client
--   sends a `ClientRequest` (version, bucket name, blinded element); `HandleRequest` evaluates the
--   element, gets the bucket and returns a `ServerResponse`; `Finalize` derives the key of the
--   credential pair and scans the bucket for an entry under that key. Protocol/Exchange joins the
--   two sides. Protocol/ServerConfig is the JSON of a server's configuration, and Protocol/Query is
--   `Query`, which runs one exchange over HTTP.
-- - cmd/server/kv.go. Store is the map in memory and its files; the operations on files are the
--   record of Store/Files. A Go map has no order; Store/Order is about the order in which it is
--   saved.
-- - cmd/server/server.go. Service is `newServer` and `insert`, which encrypts a credential pair,
--   its mutations and its username with the protocol's server and appends the entries to one bucket
--   of the store; Service/Entries is the list of those entries; Service/Process is the loop of
--   `processCredentials` of main.go over the lines of its input; Service/Found joins `insert` to
--   the files and to a client. Service/Http is the handlers, over the `http.ResponseWriter` of
--   Service/Writer; Service/Online joins `handleEvaluate` to `Query`. Service/System is the server
--   over time, as steps that insert and steps that save; requests change nothing, so a client can
--   ask between any two steps.
-- - cmd/server/main.go. Program/Server is `main` and `processCredentials`, with
--   Program/Server/Input for what an input puts into each bucket; Program/Buckets is
--   `avgBucketSize`.
-- - cmd/client/main.go. Program/Client is `main`: the configuration, from a file or from the
--   server's `/config`, the queries for the lines of the input, what is printed for them, and the
--   averages. Program/Queried runs the two programs one after the other.
--
-- How the code is modelled. A Go call that can fail or panic gives an `Outcome` (Base/Outcome): a
-- result, one of the errors, or a panic. Byte slices and strings are lists of numbers; `make`,
-- `copy` and the big-endian writes are the functions of Base/Buffer. A uint16 or uint32 conversion
-- is written out as a remainder; `int` is the integers (64 bits are enough for every length that
-- occurs). Interfaces with several implementations are data types. State is passed explicitly: the
-- store and the files are arguments and results.
--
-- The libraries are records of functions (Protocol/Libraries, Protocol/Json, Protocol/Query's
-- network, Store/Files), and what the code relies on is a second record of laws: HKDF fills the
-- slice it is given, SHA-256 gives 32 bytes, the OPRF client ends with the server's own evaluation,
-- elements and keys are written as their suite says, encoding/json reads what it has written, and
-- an append changes one file. Protocol/Toy and Store/Toy have concrete functions that keep these
-- laws; the tests use them.
--
-- Fuel. Only the loop of `Finalize` (`scan_bucket`) runs on a number of rounds. A round moves the
-- offset by at least 25 bytes, so one round more than the bucket has bytes is enough.
--
-- Not modelled: the text of JSON, the network and TCP (parameters), log output and the printing of
-- times and sizes by package fmt, the parsing of flags (a record of their values is given), and the
-- locks of the store (operations are taken one at a time). The readings of the clock, the entries
-- that `filepath.Walk` visits, the lines that a scanner gives and the square root of the statistics
-- are parameters. Memory does not run out; `make` is refused a capacity beyond 2 ^ 48 bytes, as on
-- linux/amd64. Two keys whose header pads agree on 20 bytes cannot be told apart by the code; an
-- entry of another key is therefore called foreign only if the pads differ there.
pub mod Base
pub mod Mutator
pub mod Program
pub mod Protocol
pub mod Service
pub mod Store
