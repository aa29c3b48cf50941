-- ===== src/Link/Linkfd/Ends.antt =====
-- How a call of `linkfd` ends.
