-- ===== src/Midas/Events.antt =====
-- midas.rs, `replay_feed`: a round of an event-rules guard, whose rules replay from the round's own
-- fields. `as u64` of an `i128` keeps the residue modulo 2 ** 64.
use Prim.Native.String.{String}
use crossfoot.Base.{
  ℕ, ◌-◌, ◌%◌, ◌^◌, ◌+◌, Bool, false, ◌&&◌, not, Option, none, some, List, [], ◌∷◌, ◌++◌, is_empty,
  ltb, if◌then◌else◌, ℤ, pos, negsuc, ◌-ℤ◌, ◌*ℤ◌, quot, abs, wrap128, ltb_ℤ,
}
use crossfoot.Mtbill.{is_zero}
use crossfoot.Midas.{is_unchecked, AttributedRound, same_ℤ, or_max}
use crossfoot.Midas.Feed.{
  guard_bypass, guard_inconsistent, EventRule, old_price_is_not_the_previous_round, max_move,
  relative_to_reference, spacing, reference_round_unchanged, breaks_events, FeedReplayInput,
}
use crossfoot.Midas.Guards.{
  Marked, is_external, unit_of, measured, mark, measure, gap_seconds, report,
}

unfoldable pub as_u64 : ℤ → ℕ
as_u64 (pos n) = n % 2 ^ 64
as_u64 (negsuc n) = 2 ^ 64 - 1 - n % 2 ^ 64

-- The move from one value to another in basis points.
unfoldable pub bps : ℤ → ℤ → Option ℤ
unfolding ◌-ℤ◌ ◌*ℤ◌ quot wrap128
bps from to =
    if is_zero from
    then none
    else some (wrap128 (quot (wrap128 (wrap128 (to -ℤ from) *ℤ pos 10_000)) from))

unfoldable pub reference_move : Option ℤ → Option ℤ → Option ℤ
unfolding bps
reference_move (some old) (some new) = bps old new
reference_move _ _ = none

abbrev pub or_else : ℤ → Option ℤ → ℤ
or_else default none = default
or_else default (some value) = value

-- A number of basis points at the feed's scale.
unfoldable pub scaled_bps : ℤ → ℤ → ℤ
unfolding ◌*ℤ◌ quot wrap128
scaled_bps value unit = wrap128 (quot (wrap128 (value *ℤ unit)) (pos 100))

abbrev pub rule_if : Bool → EventRule → List EventRule
rule_if broken rule = if broken then rule ∷ [] else []

-- Both given, the move of the reference small enough, and the two moves too far apart.
unfoldable pub strays : Option ℤ → Option ℤ → (relative_skip move_bps : ℤ) → Bool
unfolding ◌-ℤ◌ wrap128
strays (some relative) (some ref_move) relative_skip move_bps =
    not (ltb_ℤ relative_skip (wrap128 (abs ref_move)))
    && ltb_ℤ relative (wrap128 (abs (wrap128 (move_bps -ℤ ref_move))))
strays _ _ relative_skip move_bps = false

abbrev pub same_round : Option ℤ → Option ℤ → Bool
same_round (some a) (some b) = same_ℤ a b
same_round _ _ = false

module _ (input : FeedReplayInput) (previous round : AttributedRound)
    (rules : String → Option ℤ) where
  abbrev pub old_price : ℤ
  old_price = or_else previous.event.answer (round.event.fields "old")

  abbrev pub round_move : ℤ
  round_move = or_max (bps old_price round.event.answer)

  abbrev pub of_reference : Option ℤ
  of_reference = reference_move (round.event.fields "ref_old") (round.event.fields "ref_new")

  unfoldable pub broken_rules : List EventRule
  unfolding strays bps reference_move as_u64
  broken_rules =
      rule_if (not (same_ℤ old_price previous.event.answer)) old_price_is_not_the_previous_round
      ++ (rule_if (ltb_ℤ (or_max (rules "max_move_bps")) (wrap128 (abs round_move))) max_move
          ++ (rule_if
                (strays (rules "relative_bps") of_reference (or_max (rules "relative_skip_bps"))
                  round_move)
                relative_to_reference
              ++ (rule_if
                    (ltb (gap_seconds input previous round)
                      (as_u64 (or_else (pos 0) (rules "min_spacing_seconds"))))
                    spacing
                  ++ rule_if
                      (same_round (round.event.fields "ref_old_round")
                        (round.event.fields "ref_new_round"))
                      reference_round_unchanged)))

  -- The origin of a bypass is counted; its class and its age are not.
  unfoldable pub event_guard : Marked → Marked
  event_guard (t, row) =
      let dev = scaled_bps (wrap128 (abs round_move)) (unit_of input) in
      let bound = scaled_bps (or_max (rules "max_move_bps")) (unit_of input) in
      let row' = measured dev bound row in
      let unchecked = is_unchecked round.attribution.path in
      let origin = is_external round.attribution.via in
      let detail =
        breaks_events unchecked broken_rules round_move of_reference
          (gap_seconds input previous round) (measure input previous round dev bound) in
      let say = report input previous round detail in
      if is_empty broken_rules
      then (t, row')
      else (if unchecked
          then (
            say (record t {
              bypass_external = t.bypass_external + (if origin then 1 else 0);
              bypass_internal = t.bypass_internal + (if origin then 0 else 1);
            }),
            mark guard_bypass row',
          )
          else (say t, mark guard_inconsistent row'))
