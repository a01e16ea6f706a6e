-- ===== src/Categorization/Tables.antt =====
-- The tables of categorization/logic.py.
mod Names
mod Keywords
mod Overrides
unfoldable pub use Names.{category_order, default_category, category_aliases}
unfoldable pub use Keywords.{category_keywords}
unfoldable pub use Overrides.{verified_category_overrides}
