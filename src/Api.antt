-- ===== src/Api.antt =====
-- api/consumer_api_server.hpp and consumer_api_server.cpp: the registration server.
pub mod Wire
pub mod Server
pub mod Transfer
pub mod Session
pub mod Lifecycle
mod Examples
