-- ===== src/Planner/Same.antt =====
-- The planner's ticks against those of the adapters, on any numbers.
use supabot.Base.{string_eq}
use supabot.Base.Float.{Float}
