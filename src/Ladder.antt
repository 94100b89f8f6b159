-- ===== src/Ladder.antt =====
-- astra/core/guarantee.py: the guarantee ladder. `Engine` is what the ladder calls (ONNX Runtime,
-- the transformer, the validator), `Rungs` builds and judges the candidate of one rung, and `Run`
-- is `guarantee_compress`. The laws stand in `Floor` and `Choice`.
mod Calls
mod Rungs
mod Run
pub mod Floor
pub mod Choice
unfoldable pub use Calls.*
unfoldable pub use Rungs.*
unfoldable pub use Run.*
