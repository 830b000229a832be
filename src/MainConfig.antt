-- ===== src/MainConfig.antt =====
-- FreeTAKServer/core/configuration/MainConfig.py: the settings of the server and where they come
-- from: defaults, a YAML file, environment variables.
pub mod Text
pub mod Values
pub mod Tables
pub mod Keys
pub mod Loading
pub mod Paths
mod Examples
