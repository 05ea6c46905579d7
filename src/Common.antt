-- ===== src/Common.antt =====
-- dispatch_common.py, what the hooks and scripts share: which session the asking process belongs to,
-- and whether a session will hear of a message. The environment, /proc and the locks are inputs.
pub mod Ancestry
pub mod Arming
