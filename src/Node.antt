-- ===== src/Node.antt =====
-- cluster/node: the actors of a node, and the scheduler that keeps them.
pub mod Actor
pub mod Scheduler
pub mod Router
