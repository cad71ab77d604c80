-- ===== src/Engine/Limit.antt =====
-- How many works run.
use dheart.Engine.{Engine}
