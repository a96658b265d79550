-- ===== src/Gui.antt =====
-- protocols/gui-v1: the GUI wire protocol and its headless reference server.
pub mod Wire
pub mod Server
pub mod Wm
