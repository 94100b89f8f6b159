-- ===== src/Graph.antt =====
-- astra/graph/onnx_analyzer.py: the analysis of a graph.
mod Operators
mod Categories
mod Order
mod Nodes
mod Analyze
mod Degrees
mod Queue
mod Fuel
pub mod Sorted
pub mod Edges
unfoldable pub use Operators.*
unfoldable pub use Categories.*
unfoldable pub use Order.*
unfoldable pub use Nodes.*
unfoldable pub use Analyze.*
