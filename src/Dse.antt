-- ===== src/Dse.antt =====
-- congress/dse2: the data service's end of reliable publish and subscribe.
pub mod Receiver
pub mod Channel
pub mod Refinement
pub mod Frame
pub mod Delivery
pub mod Arrival
pub mod Publisher
pub mod Stall
