-- ===== src/Rtai.antt =====
-- The RTAI back-end, sys/rtai: what it makes of the results of the RTAI interface, which are arguments.
pub mod Lock
pub mod Wait
pub mod Make
pub mod Laws
pub mod Sleep
pub mod Force
pub mod Task
pub mod Setup
pub mod Context
