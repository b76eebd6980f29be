-- ===== src/Stat.antt =====
-- The cached metadata of pacon.h and pacon.c: `struct pacon_stat`, its flag bits, and the byte
-- layout in which it is kept in the cache, with inline data behind it. A field is a number below
-- 2 ^ 32; `int`s that are 0 or 1 are Booleans.
mod Flags
mod Codec
mod Inline
pub mod Tests
unfoldable pub use Flags.*
unfoldable pub use Codec.*
unfoldable pub use Inline.*
