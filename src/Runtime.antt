-- ===== src/Runtime.antt =====
-- The setting in which the hooks of web-server/frontend/src/hooks run: a handler is an action that
-- reads and writes its hook's state, the shared contexts, and a log of what it did outside.
mod Flow
mod Setting
mod Effects
mod Rules
mod Invariants
mod Loops
pub use Setting.*
pub use Flow.*
unfoldable pub use Effects.*
pub use Rules.*
pub use Invariants.*
pub use Loops.*
