-- ===== src/Bandwidth/Clock.antt =====
-- The virtual clock, which takes seconds from the remainder and milliseconds from `mod_of`.
