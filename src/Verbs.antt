-- ===== src/Verbs.antt =====
-- The verbs provider, verbs/src: its queues are rings over arrays.
pub mod Fifo
pub mod Ring
pub mod Cq
pub mod Handles
pub mod Mr
pub mod Copy
pub mod Sq
pub mod Worker
pub mod Rq
pub mod Qp
pub mod Pd
