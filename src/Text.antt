-- ===== src/Text.antt =====
-- Go strings as lists of bytes, with what the program uses of strings, strconv and net on them.
mod Bytes
mod HostPort
mod Number
mod Dict
mod Affix
pub use Bytes.*
unfoldable pub use HostPort.{split_host_port}
pub use HostPort.{bare, bare_whole}
unfoldable pub use Number.{atoi}
pub use Dict.*
pub use Affix.*
