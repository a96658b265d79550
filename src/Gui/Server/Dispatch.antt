-- ===== src/Gui/Server/Dispatch.antt =====
-- server.rs, `dispatch`: the semantic stage, one arm for each request.
pub mod Session
pub mod Surfaces
pub mod Buffers
pub mod Commit
use dunit_os.Prelude.{ℕ, Option}
use dunit_os.Gui.Wire.Request
use dunit_os.Gui.Wire.Request.{Request}
use dunit_os.Gui.Server.Step.{World, Ctx, Step}

unfoldable pub dispatch : World → Ctx → Request → Option ℕ → Step
dispatch w x (Request.hello a b c d) attached = Session.hello w x a b c d
dispatch w x Request.disconnect attached = Session.disconnect w x
dispatch w x (Request.create_surface a b c d) attached = Surfaces.create_surface w x a b c d
dispatch w x Request.destroy_surface attached = Surfaces.destroy_surface w x
dispatch w x (Request.set_title s) attached = Session.set_title w x s
dispatch w x (Request.set_app_id s) attached = Session.set_app_id w x s
dispatch w x (Request.ack_configure a) attached = Surfaces.ack_configure w x a
dispatch w x (Request.import_buffer a b c d e) attached =
    Buffers.import_buffer w x attached a b c d e
dispatch w x Request.destroy_buffer attached = Buffers.destroy_buffer w x
dispatch w x (Request.attach_buffer b rs) attached = Buffers.attach_buffer w x b rs
dispatch w x (Request.commit a b) attached = Commit.commit w x a b
