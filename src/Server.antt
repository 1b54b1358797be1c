-- ===== src/Server.antt =====
-- main/usbip_server.c, without the loops over the socket (see Socket).
pub mod Connections
pub mod Slots
pub mod Host
pub mod Reply
pub mod Worker
pub mod Reader
pub mod Stream
pub mod Requests
