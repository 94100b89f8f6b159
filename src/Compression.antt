-- ===== src/Compression.antt =====
-- astra/core/compression_actions.py and the operator categories of astra/graph/onnx_analyzer.py.
-- `Actions` has the action spaces, `Translate` the translation to concrete actions; their laws
-- stand in `Spaces` and `Coverage`. A ratio is counted in tenths (0.9 is 9), since every ratio of
-- the source is a multiple of 0.1; a share of the parameters is the pair of counts it divides.
mod Actions
mod Translate
pub mod Spaces
pub mod Coverage
unfoldable pub use Actions.*
unfoldable pub use Translate.*
