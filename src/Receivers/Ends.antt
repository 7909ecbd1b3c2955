-- ===== src/Receivers/Ends.antt =====
-- x
