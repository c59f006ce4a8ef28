-- ===== src/Coalescer/Invariant.antt =====
-- What holds of every call in every reachable state of a coalescer.
mod Call
mod State
pub use Call.{CallOk, abandoned}
pub use State.{Inv, Reach-Inv, store-abandon, store-settle}
