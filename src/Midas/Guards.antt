-- ===== src/Midas/Guards.antt =====
-- midas.rs, `replay_feed`: what one round does under each kind of guard. A guard takes the tally and
-- the round's row as they are when the source reaches it, and returns both at its `continue`, where
-- the caller pushes the row.
use crossfoot.Base.{
  ℕ, ◌+◌, ◌^◌, Bool, true, false, ◌&&◌, ◌||◌, not, Option, none, some, [], ◌∷◌, ◌++◌, leb, ◌==◌,
  if◌then◌else◌, ℤ, pos, ◌-ℤ◌, abs, wrap128, ltb_ℤ, saturating_sub,
}
use crossfoot.Mtbill.{deviation, is_zero}
use crossfoot.Midas.{
  is_unchecked, is_checked, Via, external, AttributedRound, Era, era_for, StateAtBlock, Bypass,
  valuation_move, deviation_over_mean, same_ℤ, or_max,
}
use crossfoot.Midas.Feed.{
  Kind, guard_bypass, unguarded_post, guard_inconsistent, guard_at_bound, guard_clamped,
  attribution_gap, TimelineRound, absolute_delta, reference_bound, clamp_band, Measure, Detail,
  no_guard_post, within_bound_post, too_soon, breaks_rule, bypass, on_range_end, on_band, truncated,
  state_unread, post, FeedReplayInput, add_class, Tally, add_sample,
}

abbrev pub Marked : Type 0
Marked = Tally × TimelineRound

abbrev pub is_external : Via → Bool
is_external external = true
is_external _ = false

-- 10 ** decimals
abbrev pub unit_of : FeedReplayInput → ℤ
unit_of input = wrap128 (pos (10 ^ input.decimals))

abbrev pub recent_from : FeedReplayInput → ℕ
recent_from input = saturating_sub input.b1_timestamp input.recent_seconds

abbrev pub measured : ℤ → ℤ → TimelineRound → TimelineRound
measured dev bound row = record row { deviation_in_force = some dev; bound_in_force = some bound }

abbrev pub mark : Kind → TimelineRound → TimelineRound
mark kind row = record row { finding = some kind }

-- What the rounds share: the input, the round before and the round.
module _ (input : FeedReplayInput) (previous round : AttributedRound) where
  abbrev pub report : Detail → Tally → Tally
  report detail t = record t {
    findings = t.findings ++ (post round (era_for input.eras round.event.block) detail ∷ []);
  }

  -- A post over its bound: the class, the origin and the age are counted.
  abbrev pub add_bypass : Bypass → Tally → Tally
  add_bypass class t =
      let origin = is_external round.attribution.via in
      record t {
        classifications = add_class class t.classifications;
        bypass_external = t.bypass_external + (if origin then 1 else 0);
        bypass_internal = t.bypass_internal + (if origin then 0 else 1);
        bypass_recent =
            t.bypass_recent + (if leb (recent_from input) round.event.timestamp then 1 else 0);
      }

  abbrev pub in_same_block : Bool
  in_same_block = previous.event.block == round.event.block

  abbrev pub measure : ℤ → ℤ → Measure
  measure dev bound = record {
    last_answer = previous.event.answer;
    deviation = dev;
    bound = bound;
    same_block = in_same_block;
  }

  abbrev pub gap_seconds : ℕ
  gap_seconds = saturating_sub round.event.timestamp previous.event.timestamp

  abbrev pub series_deviation : ℤ
  series_deviation = or_max (deviation previous.event.answer round.event.answer)

  abbrev pub enforces : Option Era → Bool
  enforces none = false
  enforces (some era) = era.enforces_spacing

  -- The spacing of the checked path.
  unfoldable pub spacing_guard : Marked → Marked
  unfolding saturating_sub
  spacing_guard (t, row) = elim input.spacing_seconds [
    | none ↦ (t, row)
    | some limit ↦
        if is_checked round.attribution.path
          && leb gap_seconds limit
          && enforces (era_for input.eras round.event.block)
        then (report (too_soon gap_seconds) t, mark guard_inconsistent row)
        else (t, row)
  ]

  abbrev pub over_threshold : ℤ → Option ℤ → Bool
  over_threshold dev none = false
  over_threshold dev (some threshold) = ltb_ℤ threshold dev

  -- A min_max guard.
  unfoldable pub range_guard : ℤ × ℤ → Marked → Marked
  range_guard (minimum, maximum) (t, row) =
      let dev = series_deviation in
      let row' = record row { deviation_in_force = some dev; bound_in_force = input.threshold } in
      let moved = if over_threshold dev input.threshold then 1 else 0 in
      let t' = record t { moves_above_threshold = t.moves_above_threshold + moved } in
      let detail = on_range_end minimum maximum previous.event.answer dev in_same_block in
      if same_ℤ round.event.answer minimum || same_ℤ round.event.answer maximum
      then (report detail (record t' { at_bound = t'.at_bound + 1 }), mark guard_at_bound row')
      else (t', row')

  abbrev pub unread : Marked → Marked
  unread (t, row) = (report state_unread t, mark attribution_gap row)

  abbrev pub sampled : StateAtBlock → Tally → Tally
  sampled state t = record t { bound_samples = add_sample state.block state.bound t.bound_samples }

  -- An absolute delta guard.
  unfoldable pub absolute_guard : Option StateAtBlock → Marked → Marked
  unfolding ◌-ℤ◌ wrap128
  absolute_guard none m = unread m
  absolute_guard (some state) (t, row) =
      let delta = wrap128 (abs (wrap128 (round.event.answer -ℤ previous.event.answer))) in
      let t' = sampled state t in
      let row' = measured delta state.bound row in
      let m = measure delta state.bound in
      if ltb_ℤ state.bound delta
      then (if is_unchecked round.attribution.path
          then (
            report (bypass valuation_move none m) (add_bypass valuation_move t'),
            mark guard_bypass row',
          )
          else (report (breaks_rule absolute_delta none m) t', mark guard_inconsistent row'))
      else (t', row')

  -- A reference guard: `last_answer` of the state is the reference.
  unfoldable pub reference_guard : Option StateAtBlock → Marked → Marked
  reference_guard none m = unread m
  reference_guard (some state) (t, row) =
      let dev = or_max (deviation_over_mean state.last_answer round.event.answer (unit_of input)) in
      let t' = sampled state t in
      let row' = measured dev state.bound row in
      let m = measure dev state.bound in
      let against = some state.last_answer in
      if is_unchecked round.attribution.path
      then (if ltb_ℤ state.bound dev
          then (
            report (bypass valuation_move against m) (add_bypass valuation_move t'),
            mark guard_bypass row',
          )
          else (
            report (within_bound_post against m) (record t' { unguarded = t'.unguarded + 1 }),
            mark unguarded_post row',
          ))
      else (if ltb_ℤ state.bound dev
          then (report (breaks_rule reference_bound against m) t', mark guard_inconsistent row')
          else (t', row'))

  abbrev pub is_truncated : Bool
  is_truncated = elim round.attribution.value [
    | none ↦ false
    | some posted ↦ not (same_ℤ posted round.event.answer)
  ]

  -- A clamp guard.
  unfoldable pub clamp_guard : ℤ → Marked → Marked
  clamp_guard band (t, row) =
      let dev = series_deviation in
      let row' = measured dev band row in
      let m = measure dev band in
      if is_zero previous.event.answer
      then (t, row)
      else (if is_truncated
          then (
            report (truncated round.attribution.value m) (record t { clamped = t.clamped + 1 }),
            mark guard_clamped row',
          )
          else (if ltb_ℤ band dev
              then (report (breaks_rule clamp_band none m) t, mark guard_inconsistent row')
              else (if same_ℤ dev band
                  then (
                    report (on_band m) (record t { at_bound = t.at_bound + 1 }),
                    mark guard_at_bound row',
                  )
                  else (t, row'))))

  -- A family without a guard.
  unfoldable pub without_guard : Marked → Marked
  without_guard (t, row) =
      if is_unchecked round.attribution.path
      then (
        report (no_guard_post in_same_block) (record t { unguarded = t.unguarded + 1 }),
        mark unguarded_post row,
      )
      else (t, row)
