-- ===== src/Outcome.antt =====
-- internal/gateway/request.go: how a request ended.
pub data Outcome : Type 0 where
  running rejected queue_lost engine_err served cut : Outcome
