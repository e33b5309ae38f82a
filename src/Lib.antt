-- ===== src/Lib.antt =====
-- otvoren-vot is an internet voting system. A voter's client encrypts a ballot, the collection service
-- keeps the last ballot of each voter, the bulletin board publishes ballots in an append-only Merkle
-- tree, the verification service returns codes by which a voter checks what was cast, and the tally
-- service adds the ballots under encryption and decrypts the sums with the partial decryptions of
-- five of nine trustees. This library translates the Go code to functions and states what it does.
--
-- Files and code:
--   Prelude          lists, maps, bytes, hex and replies of handlers: what the components share of
--                    Go's standard library.
--   Merkle           crypto/merkle: Hash, Tree and Verify are hash.go, tree.go and verify.go. Spec is
--                    the recursion of RFC 9162 section 2.1, against which the code is proved. Levels,
--                    Range, Path, Rounds and Walk are the proofs that the code computes it, Collision,
--                    Sound and Accepted those about accepted proofs.
--   Crypto           crypto/group and crypto/internal (Group), crypto/elgamal (Elgamal, Vectors),
--                    crypto/proof (Proof, Ballot) and crypto/threshold (Feldman, Threshold, Dkg).
--                    Complete, Honest and Consistent are about the proofs of honest parties, Logarithm
--                    about the search for a logarithm, Homomorphic about decryption, Shares, Joint and
--                    Generated about the shares of honest dealers, Collected, Shaped, Counted, Tallied,
--                    Places and InRange about the tally of ballots. Numbers, Integers and Parity are
--                    instances of the group's interface.
--   Board            bulletin-board: Store is store/postgres.go over the tables of store/migrations, Service
--                    is board/board.go, Api is the handlers of api and the pages that the tally's client
--                    fetches. Valid, Inserts, Appends, Proofs, Recorded, Paging, Races and
--                    Stored hold proofs.
--   Collection       collection: Votermap is votermap/votermap.go, Postgres is store/postgres.go over its
--                    tables, Audit the chain check and the root of audit, Report is `Generate` of
--                    audit/audit.go, Handler is handler.go. Chains, Cast, Tamper and Submits hold proofs
--                    about votes and chains, Rows, Refines and Replays that the tables implement the store in
--                    memory, Leaves, Sorted, Published and Reported those about reports.
--   Verification     verification: Codes is codes/codes.go, Session is session/session.go over a heap
--                    of scalars, Handler is handler.go. Requests is the relation of what happens between two
--                    requests; Spent, OneTime and Wiping hold proofs.
--   Tally            tally: State is state.go, Compute is ceremony/tally.go and bbclient.go, Submission,
--                    Start and Handler are handler.go, Journal the file of a ceremony and its recovery
--                    at a start. Reach is the step relation of the service; Cases, Acceptance,
--                    Lifecycle, Recovered and Answers hold proofs.
--   Auth             auth: Redirect is redirect.go, Session is session/store.go and session/ratelimit.go
--                    over the commands of Redis, Provider is provider/mock.go, Handler is handler.go and
--                    Login is login.go. Memory is an instance of Redis. Patterns, Replaced,
--                    OneSession, Limits, LoggedIn and Identified hold proofs.
--
-- State and concurrency: a record stands for each struct, a method that mutates returns the new
-- record, and a handler that holds its mutex throughout is one step. `runTally` and `HandleVerify`
-- take the lock more than once and are two steps each. `HandleSubmitShare`, and `HandleCreateSession` in
-- dev mode, take the session store's lock more than once too, and each is modelled as one step; the
-- relation of Verification/Requests has the calls of the session store as steps of their own. The
-- clock, random values, the answers of other services and whether a write succeeds are arguments of the
-- step that reads them.
--
-- Bounds and fuel: uint64 and uint32 values are native numbers within the bounds that each file names.
-- The loops of tree.go recurse on the height of the tree, `climb` and `skip_right` on the index that
-- they halve, and the search for a discrete logarithm on its number of steps, so the fuel is the
-- loop's own bound.
--
-- The attempts of `AppendBallot` are counted down from the code's three, and the pages of a fetch from
-- any number above that of the ballots.
--
-- Parameters: ristretto255 with its scalars, as a record of the calls and, where a theorem needs them, of
-- their laws; SHA-256, SHA-512 and HMAC-SHA256 as functions on bytes; JSON parsers of ballots and JSON
-- with JCS of reports; the length of a page of ballots and the text of its cursor; the commands of Redis, as a record with their documented behaviour; JWT and the
-- parsing of URIs; the text that PostgreSQL gives back for a JSONB value, and the names of its constraints.
--
-- The random scalars of dealers, key generations and ballots are arguments too.
--
-- Not modelled: network, Redis, PostgreSQL drivers, JWT and TLS; logs and texts of errors; the gnark
-- circuit; front ends and the administration service, which are not written in Go.

pub mod Prelude
pub mod Auth
pub mod Board
pub mod Collection
pub mod Crypto
pub mod Merkle
pub mod Tally
pub mod Verification
