-- ===== src/Handler/Range/Safety.antt =====
-- What a range that stoolap bounds itself may hold.
