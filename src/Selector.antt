-- ===== src/Selector.antt =====
-- selector: the filters and strategies by which a value is selected.
pub mod View
pub mod OneOf
pub mod Filter
pub mod Weighted
pub mod Strategy
pub mod Select
