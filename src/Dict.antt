-- ===== src/Dict.antt =====
-- Dictionaries: `Base` is Python's `dict`, `Nested` a dict of dicts.
pub mod Base
pub mod Nested
