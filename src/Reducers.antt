-- ===== src/Reducers.antt =====
-- Reducers of the headers under cilk-l/include/cilk: the views that strands update, and how the view of
-- a strand is reduced into the one to its left.
pub mod MinMax
pub mod Vectors
pub mod Sums
pub mod Lists
pub mod Serial
mod Tests
