-- ===== src/Midas/Bounded.antt =====
-- midas.rs, `replay_feed`: a round under a deviation bound, which is read at the block before it.
use crossfoot.Base.{
  ◌+◌, Bool, ◌&&◌, not, List, false, Option, none, some, if◌then◌else◌, ℤ, ltb_ℤ, saturating_sub,
}
use crossfoot.Midas.{
  is_unchecked, AttributedRound, Bounds, BoundSegment, StateAtBlock, classify_bypass, same_ℤ,
  needs_state, implied_bounds,
}
use crossfoot.Midas.Feed.{
  guard_bypass, unguarded_post, guard_inconsistent, attribution_gap, within_bound_post, breaks_rule,
  bypass, state_mismatch, history_mismatch, Rule, FeedReplayInput, Tally,
}
use crossfoot.Midas.Guards.{
  Marked, unit_of, measured, mark, report, add_bypass, in_same_block, measure, series_deviation,
  unread, sampled,
}

module _ (input : FeedReplayInput) (segments : List BoundSegment) (first_post_value : ℤ)
    (previous round : AttributedRound) where
  abbrev pub disagrees : ℤ → Option Bounds → Bool
  disagrees bound none = false
  disagrees bound (some implied) = not (same_ℤ implied.max_answer_deviation bound)

  abbrev pub implied_bound : ℤ → Option Bounds → ℤ
  implied_bound bound none = bound
  implied_bound bound (some implied) = implied.max_answer_deviation

  -- The bound that was read against the history of its events.
  unfoldable pub check_history : StateAtBlock → Tally → Tally
  unfolding implied_bounds saturating_sub
  check_history state t =
      let implied = implied_bounds segments (saturating_sub round.event.block 1) in
      let detail = history_mismatch state.bound (implied_bound state.bound implied) in
      if disagrees state.bound implied then report input previous round detail t else t

  -- The post against the bound in force.
  unfoldable pub judge_bound : StateAtBlock → Marked → Marked
  unfolding classify_bypass
  judge_bound state (t, row) =
      let dev = series_deviation input previous round in
      let row' = measured dev state.bound row in
      let m = measure input previous round dev state.bound in
      let say = report input previous round in
      let class =
        classify_bypass round.event.answer previous.event.answer first_post_value (unit_of input) in
      if is_unchecked round.attribution.path
      then (if ltb_ℤ state.bound dev
          then (
            say (bypass class none m) (add_bypass input previous round class t),
            mark guard_bypass row',
          )
          else (
            say (within_bound_post none m) (record t { unguarded = t.unguarded + 1 }),
            mark unguarded_post row',
          ))
      else (if ltb_ℤ state.bound dev
          then (say (breaks_rule Rule.deviation none m) t, mark guard_inconsistent row')
          else (t, row'))

  abbrev pub is_stale_state : StateAtBlock → Bool
  is_stale_state state =
      not (in_same_block input previous round)
      && not (same_ℤ state.last_answer previous.event.answer)

  unfoldable pub state_guard : Option StateAtBlock → Marked → Marked
  state_guard none m = unread input previous round m
  state_guard (some state) (t, row) =
      let t' = sampled input previous round state t in
      let detail = state_mismatch state.last_answer previous.event.answer in
      if is_stale_state state
      then (report input previous round detail t', mark attribution_gap row)
      else judge_bound state (check_history state t', row)

  unfoldable pub bounded_guard : ℤ → Option StateAtBlock → Marked → Marked
  bounded_guard bound_at_b1 state m =
      if needs_state bound_at_b1 previous round then state_guard state m else m
