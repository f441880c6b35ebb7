-- ===== src/Svzchf/Tests.antt =====
-- A chain with the module's code from its deployment block on, a node that fails once, and the
-- theorems on them.
use Prim.Native.String.{String}
use crossfoot.Base.{
  ℕ, ◌≡◌, ◌+◌, refl, arith, Bool, Option, none, some, List, [], ◌∷◌, leb, ◌==◌, if◌then◌else◌, ok,
  add64, sub64,
}
use crossfoot.Svzchf.{find_deployment_block, search}
use crossfoot.Svzchf.Deployment.{answers, find_deployment_block-BeginsAt}
use crossfoot.Svzchf.Sweep.{
  Answer, fetched, refused, failed, Sweep, Range, sweep_logs, sweep_loop, round, react, accept,
  extend, regrow, narrow, give_up, stop_early, count_topics, count_topic, covered_to,
}
use crossfoot.Svzchf.Coverage.{Tiles, sweep_logs-Tiles}

abbrev deployed : ℕ → Bool
deployed block = leb 22_536_327 block

deployment_found :
    find_deployment_block (answers String deployed) 25_000_000 ≡ some (ok (some 22_536_327, []))
unfolding find_deployment_block search sub64
deployment_found = refl

find_deployment_block-BeginsAt_example :
    find_deployment_block (answers String deployed) 25_000_000
    ≡ some (
        ok (
          some
              ((find_deployment_block-BeginsAt String deployed 25_000_000 (omega arith)).2 refl
                refl).0,
          [],
        ))
find_deployment_block-BeginsAt_example =
    ((find_deployment_block-BeginsAt String deployed 25_000_000 (omega arith)).2 refl refl).1

-- A node that fails on its first request and then returns one log for each range.
abbrev node : (request first last : ℕ) → Answer
node request first last = if request == 0 then refused failed "timeout" else fetched (none ∷ [])

sweep_logs-Tiles_example :
    Tiles 100
      (sweep_logs-Tiles node none 100 25_000 10_000
        (omega arith)
        (omega arith)
        (omega arith)).0.recorded
      (covered_to 25_000
          (sweep_logs-Tiles node none 100 25_000 10_000 (omega arith) (omega arith) (omega arith)).0
        + 1)
sweep_logs-Tiles_example =
    (sweep_logs-Tiles node none 100 25_000 10_000 (omega arith) (omega arith) (omega arith)).2

abbrev ranges_of : Option Sweep → List Range
ranges_of none = []
ranges_of (some s) = s.recorded

-- The failed request is repeated with half the chunk.
narrowed : ranges_of (sweep_logs node 100 9_000 none 10_000) ≡ (
    record { first = 5_100; last = 9_000; logs = 1 }
    ∷ record { first = 100; last = 5_099; logs = 1 }
    ∷ [])
unfolding sweep_logs sweep_loop round react accept extend regrow narrow give_up stop_early
    count_topics count_topic add64 sub64
narrowed = refl

abbrev chunk_of : Option Sweep → ℕ
chunk_of none = 0
chunk_of (some s) = s.chunk

-- An initial chunk above the limit of 10000 is cut to it, and is reached again by the widening.
widened_over_the_limit : chunk_of (sweep_logs node 1 400_000 none 50_000) ≡ 20_000
unfolding sweep_logs sweep_loop round react accept extend regrow narrow give_up stop_early
    count_topics count_topic add64 sub64
widened_over_the_limit = refl
