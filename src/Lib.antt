-- ===== src/Lib.antt =====
-- Authenticated private information retrieval: a model of the Go library under lib/.
--
-- A client asks servers for data without showing what it asks for, and notices an answer that was
-- tampered with. The parts, with the file that models each:
--
-- Field: lib/field/field.go, elements modulo ModP = 2^31 - 1 and their sampling.
-- Fss: lib/fss, keys of a two-party point function (GenerateTreePF) and their evaluation
--   (EvaluatePF). Its children follow the code from the blocks of the cipher (Expand, Convert) over one
--   node of the tree (Walk, Levels, Generate) to whole paths (Tree), the outputs (Shares, Keys) and the
--   theorems about the two calls (Correct).
-- Utils.Encoding: lib/utils/encoding.go. Query: lib/query/query.go, the identifiers that a query
--   compares. Database.Keys: the keys in lib/database/db.go.
-- Server.Predicate and Client.Predicate: lib/server/fss.go and lib/client/fss.go, with the
--   constructors in predicate_apir.go and predicate_pir.go. The client shares the vector
--   (1, alpha_1, .., alpha_4) with Fss, each server adds up its evaluations at the identifiers of
--   all keys, and the client adds the answers and compares each tag with alpha_i times the data.
-- Client.Wire: the calls of both on encoded queries and answers.
-- Ecc: lib/ecc/ecc.go. Matrix: lib/matrix/matrix.go, matrixBytes.go and matrix.c. Lwe and
--   Lwe.Amplify: the single-server scheme in lib/client/lwe.go and lib/server/lwe.go, and its
--   repetition in the two files amplify.go, which decodes by Ecc; Lwe.Database: lib/database/lwe.go.
--   Lwe.Run puts client, server and digest together, over sums modulo 2^32 (Matrix.Modular, Places).
-- Database.Fields: the databases of elements in lib/database/db.go. Database.Size: the rows and columns
--   of a number of blocks. Database.Merkle: lib/database/merkle.go. Database.Pgp: lib/database/pgp.go, the
--   hash table of the keys and its blocks in Buckets, their lookup by the point queries in Lookup, and the
--   same with proofs in Proven (the creation) and Verified (the lookup). Infos makes the database
--   of the predicate queries.
-- Point: lib/client/pir_point.go, lib/server/point.go and lib/client/client.go, over the databases in
--   Database.Bytes (lib/database/bytes.go), with the padding in Database.Padding (lib/database/pgp.go).
--   Rows, Answers, Retrieve and Scheme go from one block over one row and one server to the client;
--   Merkle adds the proofs of the blocks.
-- Dh: lib/client/dh.go, lib/server/dh.go and lib/database/elliptic.go, over the group of Dh.Groups: Sums
--   and Codec for rows and bytes, Chunks and Creation for the goroutines of the creation, Correct and Scheme
--   for an honest server, and Accepted for any.
-- Base: numbers, lists, results, bit strings and the interface to fastxor. Tests: concrete inputs.
--
-- Correspondence. A slice is a list, a struct is a record, and a uint32 or a byte is a natural number
-- whose wrap-around is written out. An error, a panic and a loop that has not ended are values of
-- `Result`. State that a method changes in place is returned, the shared buffers of an Fss included.
-- A function keeps its name in lower case, with the scheme in front where two files share it.
--
-- Randomness. A random reader is the list of what it will return. A sampling loop takes its draws from
-- that list, so it needs no fuel, and it is `stuck` when the list ends first. The theorems on keys ask
-- that no four bytes of the leaves that are reached stand for ModP, where the code draws again and the
-- two sides part.
--
-- Parameters: AES (BlockCipher), fastxor (FastXor), blake2b and time.Time (Platform), dpf-go
-- (PointKeys), encoding/gob (Gob), the groups of circl (Group, with the laws IsGroup), the Merkle trees
-- of lib/merkle, a modified copy of another project (Proofs, Trees), Go's floats (Floats, exact on the
-- range of IsExact), sort.Slice (Sorter) and the parser of OpenPGP key rings (OpenPgp). Matrices that
-- come from random and Gaussian samplers are arguments of the queries; the random ones may have more
-- words than places, as NewRandom leaves them.
--
-- Bounds. Points have at most 256 bits, the number that EvaluatePF reads. Outputs have fewer than 20
-- elements, since four keys give four blocks. bits_len halves its number, so one more step than the
-- number is fuel enough. unmarshal_from has the bytes as fuel, and each round takes at least one. Where
-- floats are used, a theorem says up to which number they have to be exact: 2^52 blocks, and 2^20 keys.
--
-- Not modelled: protocol buffers, the network, commands and measurements; reading OpenPGP keys from
-- disk; the copied Merkle tree; Gaussian sampling; and the 128-bit matrices with their client and
-- server.
pub mod Base
pub mod Field
pub mod Fss
pub mod Utils
pub mod Query
pub mod Database
pub mod Dh
pub mod Server
pub mod Client
pub mod Ecc
pub mod Matrix
pub mod Lwe
pub mod Point
mod Tests
