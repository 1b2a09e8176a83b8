-- ===== src/Namer/Length.antt =====
-- How long a claim name is, in code points.
