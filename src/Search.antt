-- ===== src/Search.antt =====
-- astra/search/pareto_search.py: the trial budget and the sampling of one objective evaluation
-- (`Trials`), the trade-off between accuracy and size (`Front`), and their laws.
mod Trials
mod Front
pub mod Budget
pub mod Sampling
pub mod Optimal
unfoldable pub use Trials.*
unfoldable pub use Front.*
