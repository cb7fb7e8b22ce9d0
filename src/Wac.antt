-- ===== src/Wac.antt =====
-- src/wac/mod.rs: the access modes.
pub mod Pdp
pub mod Prp
pub mod Guard
use quadpod.Prelude.{Bool, ◌||◌, ◌&&◌, not}

pub data Mode : Type 0 where
  read write append control : Mode

pub record AccessModes : Type 0 where
  pub read : Bool
  pub write : Bool
  pub append : Bool
  pub control : Bool

-- `Write` subsumes `Append`; no other mode implies another.
unfoldable pub allows : AccessModes → Mode → Bool
allows m read = m.read
allows m write = m.write
allows m append = m.append || m.write
allows m control = m.control

pub record Decision : Type 0 where
  pub user : AccessModes
  pub public : AccessModes
