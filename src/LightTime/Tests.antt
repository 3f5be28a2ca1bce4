-- ===== src/LightTime/Tests.antt =====
-- The search run on small distances.
use horizon_protocol.Prelude.{◌≡◌, refl, isqrt}
use horizon_protocol.LightTime.{light_search}

light_search_runs : light_search 3 50 ≡ 3
unfolding light_search isqrt
light_search_runs = refl

light_search-zero : light_search 3 0 ≡ 0
unfolding light_search
light_search-zero = refl
