-- ===== src/Prelude/Dict.antt =====
-- Python's `dict` and `OrderedDict`: pairs in insertion order. A key that is written again keeps
-- its place, `pop` takes the key out, and `move_to_end` puts its pair last.
mod Defs
mod Laws
mod Unique
unfoldable pub use Defs.{Dict, get, put, pop, move_to_end, pop_all, keys, elem, contains, values}
pub use Laws.*
pub use Unique.*
