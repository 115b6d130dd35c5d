-- ===== src/Go.antt =====
-- What the source uses of Go's standard library: strings, bytes, strconv, fmt and io.
pub mod Strings
pub mod Strconv
pub mod Reader
pub mod Writer
pub mod Json
pub mod Filepath
