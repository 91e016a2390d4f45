-- ===== src/Executors.antt =====
-- pkg/executors: the parts that adapters to the system share.
pub mod Pool
mod Tests
