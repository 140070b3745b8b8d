-- ===== src/SkipList/Shape.antt =====
-- What the nodes of a skip list stand for: cells in the order of level 0, where the cell at level i
-- that comes next is the first one that is as high. All of `forward` follows from the cells.
mod Tables
mod Cells
pub use Tables.*
pub use Cells.*
