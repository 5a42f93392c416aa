-- ===== src/InfoServer.antt =====
-- The datagram server of lab10/zad1/server.c: its table of clients and one round of its main loop.
pub mod Table
pub mod Clients
pub mod Requests
mod Examples
