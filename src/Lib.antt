-- ===== src/Lib.antt =====
-- TalCash: a proof-of-work coin in Python (talcash/): its consensus core, and the mempool, the storage
-- and the chain manager of its node.
--
-- The program. A transaction (talcash/core/tx.py) is a signed transfer or a coinbase; a block
-- (talcash/core/block.py) is a header and a list of transactions under a Merkle root
-- (talcash/core/hashing.py). `apply_block` (talcash/core/state.py) checks a block with its context and
-- computes what it does to balances and nonces; `MemoryState` writes those changes and undoes them.
-- The target of a block's proof of work (talcash/core/pow.py) is set by talcash/core/difficulty.py.
-- A node keeps blocks in files (talcash/node/blockfiles.py) and an index, balances and undo data in a
-- database (talcash/node/store.py); `ChainManager` (talcash/node/chain.py) checks what arrives, connects
-- it, and switches to the branch with the most work; the mempool (talcash/node/mempool.py) holds
-- transfers that wait for a block. All of them share the encoding of talcash/core/encoding.py and the
-- parameters of talcash/core/params.py.
--
-- The files.
--   Base.antt        tests, lists, results, integers, bytes and Python's dict, for the rest to use
--   Encoding.antt    talcash/core/encoding.py: `Writer` and `Reader`; a method is a function from the
--                    state to a result with the new state
--   Crypto.antt      talcash/crypto/keys.py, the binary part of talcash/crypto/address.py, and the
--                    record `Crypto` of what the code calls of hashlib and libsodium
--   Params.antt      talcash/core/params.py and the constants of talcash/core/amounts.py
--   Base58.antt      talcash/crypto/base58.py; a text is the list of its code points
--   Address.antt     text addresses of talcash/crypto/address.py
--   Amounts.antt     talcash/core/amounts.py: amounts as texts
--   Hashing.antt     talcash/core/hashing.py
--   Tx.antt          talcash/core/tx.py
--   Block.antt       talcash/core/block.py
--   Pow.antt         talcash/core/pow.py
--   State.antt       talcash/core/state.py
--   Difficulty.antt  talcash/core/difficulty.py
--   Snapshot.antt    talcash/core/snapshot.py
--   Genesis.antt     talcash/core/genesis.py
--   Mempool.antt     talcash/node/mempool.py
--   BlockFiles.antt  talcash/node/blockfiles.py: chunk files, and the file layer in memory
--   Store.antt       talcash/node/store.py: a table is a dict of rows
--   Chain.antt       talcash/node/chain.py: `ChainManager` over the store
--   Toy.antt         stand-ins for the cryptography, for tests
--
-- How the model corresponds to the code. Each Python function is a function of the same name; a method
-- takes its object as an argument, and two methods of one name carry the object's name
-- (`serialize_header`, `serialize_block`). A function that may raise returns `Result`: `ok` with the
-- value or `err` with the class of the exception and, for a `ValidationError`, its code. A dict is a
-- list of entries in the order of insertion. Bytes are a list of numbers, each below 256 where a theorem
-- says so. Python's integers are natural numbers here, except where the code takes differences or
-- signs (the ASERT computation, `snapshot_height`, `format_amount`), which have integers; a test of a
-- sign that a natural number cannot fail is left out.
--
-- Fuel. `merkle_root` runs its loop with as much fuel as there are leaves; each round leaves at most
-- half of the nodes, rounded up, so the fuel does not run out. `mine` is modelled with `max_attempts`
-- given, which bounds its loop; without it the nonce ends the search at 2 ^ 64, so `mine_genesis` has
-- 2 ^ 64 rounds. `digits` of a number has the number as its fuel, and each round makes the number
-- smaller. `trim_to_size` has twice the number of entries and the size of the heap, since a round takes
-- a candidate from the heap and puts one back only when an entry goes. `choose` has the number of waiting
-- transfers, since each is chosen or passed over once.
--
-- The mempool. `Mempool` is a record with the five containers of the class. A heap of `heapq` is a sorted
-- list: `heappop` returns its least item either way. `add` returns its result and the pool after it,
-- since a refusal for want of room comes after the insertion; the clock is an argument, and the state at
-- the tip is a field that the caller replaces.
--
-- The store and the chain. SQLite is taken at its word: a table with a primary key is a dict, an INSERT
-- of a key that is there is an error, and an account with a number of 2^63 or more is an error in an
-- INTEGER column. When a step in a transaction fails, `roll_back` takes the tables from before the
-- transaction and the files, with the caches of what was read, as they are at the failure; where an error
-- leaves a function of the chain manager, it carries no store. `find_header` and `find_block` are `Store.header` and
-- `Store.block`, `branch_median` is `ChainManager.median_time_past`, and `record_block` and `forget_block`
-- are `_connect` and `_disconnect_tip` after their reads. Walks down a branch have the height of the block
-- they start from as fuel, since a parent is one lower; the loops over orphans and descendants have the
-- number of orphans or of stored headers, since each is met once.
--
-- zlib is not in the repository: `Zlib` is a record of its two functions, and `ZlibLaws` says that it
-- unpacks what it packed. SHA-256, Ed25519 and Argon2id are not in the repository. `Crypto` is an
-- instance argument of all that uses them, and what a theorem needs of them is a record of laws among its
-- hypotheses: the size of a digest (`Sha256Laws`), and that a key of a
-- 32-byte seed verifies its own signatures (`Ed25519Laws`).
--
-- Not modelled: the network of the node and its API, rebuilding from files, block templates and rate
-- limits, the disk below the file layer and the listing of its files, the wallet, the miner's processes
-- and the command line.
pub mod Base
pub mod Encoding
pub mod Crypto
pub mod Params
pub mod Toy
pub mod Base58
pub mod Address
pub mod Amounts
pub mod Hashing
pub mod Tx
pub mod Block
pub mod Pow
pub mod State
pub mod Difficulty
pub mod Snapshot
pub mod Genesis
pub mod Mempool
pub mod BlockFiles
pub mod Store
pub mod Chain
