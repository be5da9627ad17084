-- ===== src/Lib.antt =====
-- Verification of nopfs, a library that keeps IPFS nodes from serving content that denylists
-- name.
--
-- The program. A denylist file holds one rule a line. `parseLine` (denylist.go) puts each rule
-- into the indexes of a `Denylist`: rules for CIDs by base58 multihash, rules for IPNS names by
-- name or multihash, double hashes by hash function and then by base58 multihash, and rules for
-- paths alone. An index (blocksdb.go) maps a key to a list of entries (entry.go), of which the
-- last one that matches a path decides. A `Blocker` (blocker.go) asks its denylists one after the
-- other until one has an answer (status.go). A subscription (subscription.go) keeps a denylist
-- file in step with one on a server. Wrappers (ipfs/) ask the blocker before they call the block
-- service, name system or resolver that they wrap. The Kubo plugin (nopfs-kubo-plugin/) makes a
-- blocker of the files in the default directories (util.go), and a test suite (tester/) checks
-- that an implementation answers as it should.
--
-- The files.
--   Prelude     shared names, Boolean tests on the native numbers and on byte lists, Go's errors as
--               values (Errors), Go's maps as association lists (GoMap)
--   Text        the functions of Go's strings, net/url and encoding/hex that the code calls, and
--               cutPrefix of util.go; lemmas on affixes, fields and escapes; Paths is what the code calls
--               of path/filepath, Decimal the text of a number
--   Libs        go-cid, go-multihash, go-multibase and boxo/path, which are not part of the
--               repository: a record of functions that every definition which calls them takes
--   Entry       entry.go: Entry, BlockedPath, NewBlockedPath, Matches, CheckPathStatus
--   BlocksDb    blocksdb.go: Load and Store
--   Status      status.go: StatusResponse, ToError
--   Denylist    denylist.go: the record; Rules and Parsing are parseLine, each case of its switch and
--               each closure a function; Lookup is the queries IsCidBlocked, IsPathBlocked,
--               IsIPFSPathBlocked, IsIPLDPathBlocked, IsIPNSPathBlocked, IsSubpathBlocked and the
--               checks of double hashes; Dnslink is toDNSLinkFQDN; Header is Decode and readHeader,
--               Following followLines, Waiting waitForWrite, Reading parseAndFollow, NewDenylist and
--               NewDenylistReader; Log says with no index what the rules of a text are, and its
--               children that the indexes hold these; Calls says what ReadString may give, Feeding
--               lists the calls that give a text, Citing says which rule a response has, Overlap what
--               a query sees of a line that is being parsed, Abstract a denylist up to what its readers
--               find; the other children are proofs
--   Blocker     blocker.go: NewBlocker (Opening), Close (Closing), IsCidBlocked and IsPathBlocked
--               (Answers)
--   Ipfs        ipfs/: BlockService, and Paths for the name system and the resolver
--   Subscription  subscription.go: downloadAndAppend, subscribe, NewHTTPSubscriber; Program is
--               cmd/httpsubs/main.go; Range is the Range header as a server reads it; Node is a
--               node that runs, where the remote file grows, the subscription syncs and the follower
--               of the local file reads in any order; the other children are proofs, Followers on a
--               denylist that follows the local file
--   Texts       the String methods of entry.go, status.go and denylist.go, and Error of status.go
--   Repl        cmd/nopfs/main.go: the loop that answers what is typed
--   Finding     util.go: GetDenylistFiles and GetDenylistFilesInDir
--   Plugin      nopfs-kubo-plugin/plugin.go: the plugin, its Options, MakeBlocker and PathResolvers
--   Tester      tester/tester.go: the test suite for implementations, Suite the run of it, Cases and
--               DoubleHashes its tests; the other children are proofs
--   Tests       a toy version of the libraries and the theorems at concrete inputs
--
-- How the code is modelled. A string or byte slice is a list of bytes, a Go map or an index an
-- association list. An operation that changes a denylist returns the changed one. `parseLine`
-- returns an `Outcome`: a denylist with an error or none, or a panic. Go ranges over a map in any
-- order, so each query takes the order in which its ranges go. A wrapped service is a record of
-- methods that pass on the state of a world, in which the blocker may change between calls. A
-- file is its bytes for the header, and for the rules a list of calls of `ReadString`, each with
-- the text that it gives, how it ends and how much it takes from the limit of 2 MiB that each
-- line starts with; the header's limit is 1 MiB. A node that runs (Subscription/Node) is a
-- relation of steps, which its parties take in any order: the remote file grows, the timer of the
-- subscription fires, the loop of followLines calls ReadString. Each loop is structural recursion
-- on the lines, rules, names or bytes that it goes through; only the decimal text of a number
-- runs on fuel, one more than the number, and value_from-decimal in Text/Decimal.antt shows that
-- this is enough.
--
-- What is not modelled: the log; what opening a file and the file watcher give, which are
-- arguments; the races of the goroutine that follows a file with the queries, which the code does
-- not guard for the double-hash map and the lists of entries: a query is answered between two
-- lines, or, in Denylist/Overlap, sees each field as it is before or behind the line that is
-- being parsed; what a walk over a directory visits, which is an argument; the time between the
-- syncs of a subscription; and what fx does with the options of the Kubo plugin. The number of a
-- line wraps at 2^64 as in the code; the header's line count is a natural number, since the
-- header's limit bounds it.
pub mod Prelude
pub mod Text
pub mod Libs
pub mod Entry
pub mod BlocksDb
pub mod Status
pub mod Denylist
pub mod Blocker
pub mod Ipfs
pub mod Subscription
pub mod Finding
pub mod Plugin
pub mod Texts
pub mod Repl
pub mod Tester
pub mod Tests
