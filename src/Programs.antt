-- ===== src/Programs.antt =====
-- Programs of the sandbox that exercise the library: each is run with the shim loaded, and ends with
-- status 0 just if what it was told holds together.
pub mod SeccompHelper
pub mod RandomPreload
pub mod ProcessPreload
