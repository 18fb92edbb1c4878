-- ===== src/Io.antt =====
-- Input and output as the handlers see it: exceptions, descriptors, read loops.
mod Exceptions
mod Descriptors
mod Loops
mod Buffer
pub mod Safe
pub use Exceptions.*
unfoldable pub use Descriptors.*
unfoldable pub use Loops.*
unfoldable pub use Buffer.*
