-- ===== src/Gate.antt =====
-- cluster/gate: how a gate joins the session registry and the ownership store.
pub mod Ownership
