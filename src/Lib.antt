-- ===== src/Lib.antt =====
-- A model of the online auction server, and what holds of it.
--
-- The program. `server/server.c` accepts connections into a work queue; eight workers each serve one
-- connection, and route its messages to the handlers of `server/auth.c`, `server/wallet.c`,
-- `server/bid_handler.c`, `server/auction_engine.c`, `server/dispute.c` and `server/admin.c`. A timer
-- thread closes expired auctions. The state is in flat files of records (`common/file_io.h`,
-- `common/models.h`) and in a registry of connected users (`server/notify.c`).
--
-- The files.
--   Base: the library's names, Boolean tests, lists (Base.Lists), amounts of money (Base.Money) and
--     strings in fixed buffers (Base.Bytes, Base.Strings).
--   Models: the records, enumerations and error codes of `common/models.h`.
--   Store: a file of fixed-size records, with what reads and writes do in range and out of range;
--     Store.Laws and Store.Write have its lemmas, Store.Scan the loops over a whole file.
--   World: the shared state; World.FileIo has one function for each one of `common/file_io.h`,
--     under the same name.
--   Notify: `server/notify.c` and `send_msg`; a message that is sent is put on a list.
--   Wallet: `server/wallet.c`. Wallet.Sound, Wallet.Effect and Wallet.Frame have what its functions
--     keep, do and leave alone; Wallet.Account is the abstract view of a wallet.
--   BidHandler: `server/bid_handler.c`. The part of `handle_place_bid` before `sem_wait` is
--     `place_bid_peek`, the part after it `place_bid_locked`; BidHandler.Cases has its outcomes.
--   AuctionEngine: `server/auction_engine.c`; `timer_tick` is one round of the timer's loop.
--   Dispute: `server/dispute.c`. Admin: `server/admin.c`. Auth: `server/auth.c`. Hash: `sha256_hex`
--     of the last two; Auth.Cases has the outcomes of a login, Auth.Presence what sessions.dat and
--     the registry keep together, Auth.Reach where a notification goes; Auth.Newcomer puts a new
--     account and its first login together.
--   Server: the work queue of `server/server.c` (Server.WorkQueue) and the conversation with a
--     client (Server.Dispatch); `handle_client` runs over the list of messages that will arrive.
--     Server.SamePresence and Server.Conversation follow sessions.dat and the registry through it,
--     for any property that the functions on them keep; Server.Stranger is about a client that does
--     not log in, Server.Leak about a refused login.
--   Views: the requests that list a file, in several of the handlers' files.
--   Ledger: the books that users.dat and auctions.dat keep together: every hold is the sum of the
--     user's highest bids on open auctions.
--   Wire: `send_msg` and `recv_msg` of `server/server.c`, over a socket on which each call moves as
--     many bytes as the kernel grants; the layout of a header is a parameter with two laws.
--   Doubles: the requests that bring an amount as a `double`, NaN and the infinities included;
--     Doubles.Numbers says that a bid of a number is that of BidHandler, Doubles.Books what the
--     requests do to the books.
--   System: the whole server, as events on any number of connections beside the timer. System.Keeps
--     says what a handler keeps, System.History how an auction or a dispute may go on;
--     System.Trade, .Bids, .Closing, .Disputes, .Accounts and .Quiet go through the handlers,
--     System.Service puts them together for one message, System.Run and System.Sessions for any
--     sequence of events. System.Money, .Unpaid and .Conserve follow the money in all wallets in
--     the same way; System.Outcry is about the bids on one auction, System.Pool about the loop of
--     `main` around `accept` and the workers. System.Reopen and System.Refund are about two orders
--     of events that go wrong.
--   Seed: `seed_admin.c`, which creates the first administrator.
--   Client: `client/client.c`. Client.Requests, .Bidder, .Staff and .Admins have its requests,
--     under the same names, Client.Socket its `send_msg` and `recv_msg`, Client.Listener its
--     listener, Client.Menus the menus and the loop of `main`; Client.Steps, .Allowed, .Agree and
--     .Mixup are about them. Fuel counts the turns of a menu's loop and of the loop of `main`; what
--     is stated of them holds for any fuel.
--   Tests: a small auction house at which the theorems are applied.
--
-- How it is modelled. A handler is a function from the state to the state, on one reading of the
-- clock. The mutexes, the semaphore and the file locks make each step one call; a handler runs in
-- one piece, also in System, where the eight workers and the timer take turns; System.Reopen and
-- Ledger.Unbacked show what two handlers can do inside one another. A file may be missing, and may
-- refuse to be opened for writing; once it is open, its reads and writes succeed. The amounts on
-- file are exact numbers: integers, without rounding, NaN or infinity. A request that
-- Server.Dispatch, System or Client sends on has such amounts too; the code takes NaN as well,
-- which is in Doubles, where a state that would hold an amount that is no number is `none`, outside
-- the model. An `uint32_t` id wraps at 2^32 where the code computes one. A role may be a number
-- above the enumeration (`role_other`); the other enumerations have only their own values. Loops
-- are structural over the records of a file, the entries of the registry, or the messages that
-- arrive; the limits of the code's arrays (64 sessions, queued sockets and expired auctions, 128
-- registry entries and disputes, 256 auctions, bids and feedbacks, 512 users) are written out. Only
-- the client's loops use fuel. The shell that computes a digest is a parameter, from the command
-- line to what it prints; what else a command with a quote in it would do is left out. A string in
-- an array ends at its NUL or with the array: the code reads on into the next field where there is
-- none.
--
-- Not modelled: the calls that set up sockets, threads and signals; what the server prints on the
-- console; two handlers that run at once, but for the two halves of `handle_place_bid`, before and
-- under the semaphore; the client's prompts and headings, and its listener thread between the steps
-- of its main thread.
pub mod Base
pub mod Models
pub mod Store
pub mod World
pub mod Notify
pub mod Wallet
pub mod BidHandler
pub mod AuctionEngine
pub mod Dispute
pub mod Hash
pub mod Admin
pub mod Auth
pub mod Server
pub mod Wire
pub mod Views
pub mod Ledger
pub mod Doubles
pub mod System
pub mod Seed
pub mod Client
pub mod Tests
