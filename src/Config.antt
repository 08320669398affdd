-- ===== src/Config.antt =====
-- src/utils/config.hpp and config.cpp: the settings of the program.
-- The file's values come from Boost's property tree: a getter returns `none` where the key is
-- missing or its text is not a value of the type, which the library throws as a `ptree_error`.
pub mod Database
pub mod Server
pub mod Init
pub mod Load
pub mod Accepts
pub mod Throws
pub mod Witnesses
