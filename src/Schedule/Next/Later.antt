-- ===== src/Schedule/Next/Later.antt =====
-- Occurrences advance: the next one comes after the prior one.
