-- ===== src/Gui/Server/Inject.antt =====
-- server.rs: the external events, which the window manager and the kernel inject.
pub mod Emit
pub mod Frames
pub mod Focus
pub mod Pointer
pub mod Keyboard
unfoldable pub use Emit.*
unfoldable pub use Frames.*
unfoldable pub use Focus.*
unfoldable pub use Pointer.*
unfoldable pub use Keyboard.*
