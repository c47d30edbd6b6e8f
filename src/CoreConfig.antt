-- ===== src/CoreConfig.antt =====
-- util/ibex_config.py: the named configurations of the core, read and printed as tool options.
pub mod Yaml
pub mod Read
pub mod Options
