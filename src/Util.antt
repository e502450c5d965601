-- ===== src/Util.antt =====
-- util: encodings of texts, and the option parser of the tools.
pub mod Base64
pub mod Hex
pub mod Tables
pub mod Getopt
pub mod Basename
