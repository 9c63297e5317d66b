-- ===== src/KvcacheStore/Outcome.antt =====
-- How a method that changes an object ends. The object outlives an exception.
pub data Outcome (S : Type 0) : Type 0 where
  returned : S → Outcome S
  key_error : S → Outcome S
  -- the method's loop never ends
  looping : Outcome S
