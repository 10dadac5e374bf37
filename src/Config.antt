-- ===== src/Config.antt =====
-- The configuration (src/kimi_proxy/config/loader.py): what each section of the file gives, for any
-- value that the TOML holds. A value that TOML has and JSON has not, such as a date, is not modelled;
-- a float is its 64 bits, and what is done with them are parameters.
pub mod Values
pub mod Sections
pub mod Pruning
pub mod File
