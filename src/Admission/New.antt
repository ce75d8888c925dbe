-- ===== src/Admission/New.antt =====
-- What a validator that `newShootValidator` returns works with.
