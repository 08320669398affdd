-- ===== src/RequestHandler.antt =====
-- src/core/request_handler.hpp and request_handler.cpp: the answers to HTTP requests.
-- A handler is run with what the libraries and the configuration give it (`Env`); its value says how
-- it ends, with the calls that it makes (tinychat_server.Database).
pub mod Target
pub mod Credentials
pub mod Mime
pub mod Assets
pub mod Rooms
pub mod Members
pub mod Users
pub mod Dispatch
pub mod Transactions
pub mod Access
pub mod Routing
pub mod Held
pub mod Permits
pub mod Echo
pub mod Confinement
pub mod Login
pub mod Registration
pub mod Witnesses
