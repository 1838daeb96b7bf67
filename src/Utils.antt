-- ===== src/Utils.antt =====
-- utils/utils.cpp: text, paths, directories and the signature of a file.
pub mod Punct
pub mod RandString
pub mod SigPath
pub mod CalcSig
pub mod Directories
pub mod FormatStr
pub mod Tests
