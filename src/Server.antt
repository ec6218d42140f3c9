-- ===== src/Server.antt =====
-- server/server.c: the queue of accepted connections, and the conversation with one client.
pub mod WorkQueue
pub mod Dispatch
pub mod SamePresence
pub mod Conversation
pub mod Stranger
pub mod Leak
