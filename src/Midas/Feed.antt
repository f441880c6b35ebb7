-- ===== src/Midas/Feed.antt =====
-- The replay of one feed: cli/src/model/midas.rs, the records of `replay_feed`. A finding, which the
-- source writes as JSON, is a constructor with the values that it reports; percentages and notes, which
-- repeat them as text, and the name of the feed are left out. The texts of a timeline row are the
-- numbers that they print. A `usize` counter is a plain number.
use Prim.Native.String.{String, compare}
use Prim.Native.Nat.{Ordering}
use crossfoot.Base.{
  ◌⊎◌, inl, inr, ℕ, ◌+◌, Bool, true, false, Option, List, [], ◌∷◌, ltb, ◌==◌, if◌then◌else◌, ℤ,
}
use crossfoot.Midas.{
  PostPath, SetterTx, ReferenceMove, AttributedRound, Bounds, BoundEventGroup, Era, StateAtBlock,
  Bypass, scale_reset, from_placeholder, valuation_move,
}

pub data Kind : Type 0 where
  guard_bypass unguarded_post guard_inconsistent guard_at_bound guard_clamped : Kind
  unguarded_reference_move override_flag_set silence bound_changed bound_history_inconsistent : Kind
  failed_setter attribution_gap : Kind

abbrev pub kind_name : Kind → String
kind_name guard_bypass = "GUARD_BYPASS"
kind_name unguarded_post = "UNGUARDED_POST"
kind_name guard_inconsistent = "GUARD_INCONSISTENT"
kind_name guard_at_bound = "GUARD_AT_BOUND"
kind_name guard_clamped = "GUARD_CLAMPED"
kind_name unguarded_reference_move = "UNGUARDED_REFERENCE_MOVE"
kind_name override_flag_set = "OVERRIDE_FLAG_SET"
kind_name silence = "SILENCE"
kind_name bound_changed = "BOUND_CHANGED"
kind_name bound_history_inconsistent = "BOUND_HISTORY_INCONSISTENT"
kind_name failed_setter = "FAILED_SETTER"
kind_name attribution_gap = "ATTRIBUTION_GAP"

pub record TimelineRound : Type 0 where
  pub round_id : ℕ
  pub block : ℕ
  pub timestamp_unix : ℕ
  pub answer : ℤ
  pub path : PostPath
  pub transaction_hash : String
  pub deviation_in_force : Option ℤ
  pub bound_in_force : Option ℤ
  pub finding : Option Kind

pub record PostCounts : Type 0 where
  pub safe : ℕ
  pub safe3 : ℕ
  pub raw : ℕ
  pub raw3 : ℕ
  pub failed : ℕ
  pub unattributed : ℕ

pub record PostCountsByOrigin : Type 0 where
  pub external : PostCounts
  pub internal : PostCounts

-- The rules of an event-rules guard that a round can break.
pub data EventRule : Type 0 where
  old_price_is_not_the_previous_round max_move relative_to_reference spacing : EventRule
  reference_round_unchanged : EventRule

-- The `rule` of a GUARD_INCONSISTENT finding that measures a round.
pub data Rule : Type 0 where
  absolute_delta reference_bound clamp_band deviation : Rule

pub record Measure : Type 0 where
  pub last_answer : ℤ
  pub deviation : ℤ
  pub bound : ℤ
  pub same_block : Bool

-- What a finding about a round says beside the round itself.
pub data Detail : Type 0 where
  override_flag : Detail
  first_post : Detail
  no_guard_post : (same_block : Bool) → Detail
  within_bound_post : (reference : Option ℤ) → Measure → Detail
  too_soon : (gap : ℕ) → Detail
  breaks_rule : Rule → (reference : Option ℤ) → Measure → Detail
  bypass : Bypass → (reference : Option ℤ) → Measure → Detail
  breaks_events :
      (unchecked : Bool) (broken : List EventRule) (move_bps : ℤ) (reference_move : Option ℤ)
      (gap : ℕ)
      → Measure
      → Detail
  on_range_end : (minimum maximum last_answer deviation : ℤ) (same_block : Bool) → Detail
  on_band : Measure → Detail
  truncated : (posted : Option ℤ) → Measure → Detail
  state_unread : Detail
  state_mismatch : (on_chain in_series : ℤ) → Detail
  history_mismatch : (bound implied : ℤ) → Detail

-- The kind that the configuration of the event names, and the rest of the entry.
pub record Notice : Type 0 where
  pub kind : String
  pub json : String

pub data Finding : Type 0 where
  post : AttributedRound → Option Era → Detail → Finding
  reference_unchecked : ReferenceMove → Finding
  reference_over_bound : ReferenceMove → (deviation : ℤ) (bound : Option ℤ) → Finding
  notice : Notice → Finding
  quiet : (previous round : AttributedRound) (gap : ℕ) → Finding
  bounds_moved : BoundEventGroup → (before after : Bounds) → Finding
  failed_post : SetterTx → (sender_posted : Bool) → Finding
  unresolved_rounds : (count : ℕ) → Finding
  round_ids : (note : String) → Finding

abbrev pub detail_kind : Detail → Kind
detail_kind override_flag = override_flag_set
detail_kind first_post = unguarded_post
detail_kind (no_guard_post same_block) = unguarded_post
detail_kind (within_bound_post reference m) = unguarded_post
detail_kind (too_soon gap) = guard_inconsistent
detail_kind (breaks_rule rule reference m) = guard_inconsistent
detail_kind (bypass class reference m) = guard_bypass
detail_kind (breaks_events true broken move_bps reference_move gap m) = guard_bypass
detail_kind (breaks_events false broken move_bps reference_move gap m) = guard_inconsistent
detail_kind (on_range_end minimum maximum last dev same_block) = guard_at_bound
detail_kind (on_band m) = guard_at_bound
detail_kind (truncated posted m) = guard_clamped
detail_kind state_unread = attribution_gap
detail_kind (state_mismatch on_chain in_series) = attribution_gap
detail_kind (history_mismatch bound implied) = bound_history_inconsistent

-- A kind of the program, or for a notice the text its configuration names.
abbrev pub finding_kind : Finding → Kind ⊎ String
finding_kind (post round era detail) = inl (detail_kind detail)
finding_kind (reference_unchecked move) = inl unguarded_reference_move
finding_kind (reference_over_bound move dev bound) = inl guard_inconsistent
finding_kind (notice n) = inr n.kind
finding_kind (quiet previous round gap) = inl silence
finding_kind (bounds_moved group before after) = inl bound_changed
finding_kind (failed_post tx sender_posted) = inl failed_setter
finding_kind (unresolved_rounds count) = inl attribution_gap
finding_kind (round_ids note) = inl attribution_gap

pub record FeedReplayInput : Type 0 where
  pub decimals : ℕ
  pub bound_at_b1 : Option ℤ
  pub spacing_seconds : Option ℕ
  pub reference_guard : Bool
  pub reference_moves : List ReferenceMove
  pub absolute_guard : Bool
  pub max_silence_seconds : Option ℕ
  pub min_max : Option (ℤ × ℤ)
  pub threshold : Option ℤ
  pub notices : List Notice
  pub event_rules : Option (String → Option ℤ)
  pub clamp_band : Option ℤ
  pub rounds : List AttributedRound
  pub failed : List SetterTx
  pub states : ℕ → Option StateAtBlock
  pub bound_groups : List BoundEventGroup
  pub eras : List Era
  pub b1_timestamp : ℕ
  pub recent_seconds : ℕ
  pub round_id_gap : Option String

-- The classes of the bypasses; a class that no bypass has, which the map of the source lacks, is 0.
pub record Classes : Type 0 where
  pub scale_resets : ℕ
  pub from_placeholders : ℕ
  pub valuation_moves : ℕ

abbrev pub add_class : Bypass → Classes → Classes
add_class scale_reset c = record c { scale_resets = c.scale_resets + 1 }
add_class from_placeholder c = record c { from_placeholders = c.from_placeholders + 1 }
add_class valuation_move c = record c { valuation_moves = c.valuation_moves + 1 }

-- What the loop over the rounds changes.
pub record Tally : Type 0 where
  pub counts : PostCounts
  pub external : PostCounts
  pub internal : PostCounts
  pub bypass_external : ℕ
  pub bypass_internal : ℕ
  pub bypass_recent : ℕ
  pub unguarded : ℕ
  pub at_bound : ℕ
  pub clamped : ℕ
  pub override_flags : ℕ
  pub moves_above_threshold : ℕ
  pub classifications : Classes
  pub posters : List String
  pub bound_samples : List (ℕ × ℤ)
  pub findings : List Finding
  pub timeline : List TimelineRound

pub record FeedReplay : Type 0 where
  pub findings : List Finding
  pub timeline : List TimelineRound
  pub bound_samples : List (ℕ × ℤ)
  pub posts : PostCounts
  pub posts_by_origin : PostCountsByOrigin
  pub bypass_posts_external : ℕ
  pub bypass_posts_internal : ℕ
  pub bypass_classifications : Classes
  pub bypass_posts_recent : ℕ
  pub unguarded_posts : ℕ
  pub at_bound_posts : ℕ
  pub clamped_posts : ℕ
  pub reference_moves : ℕ
  pub unguarded_reference_moves : ℕ
  pub override_flags : ℕ
  pub silences : ℕ
  pub moves_above_threshold : ℕ
  pub bound_changes : ℕ
  pub unattributed : ℕ
  pub poster_addresses : List String

-- A `BTreeSet` of texts and a `BTreeMap` of samples, in ascending order.
abbrev pub add_poster : String → List String → List String
add_poster s [] = s ∷ []
add_poster s (t ∷ ts) = elim (compare s t) [
  | Ordering.lt ↦ s ∷ t ∷ ts
  | Ordering.eq ↦ t ∷ ts
  | Ordering.gt ↦ t ∷ add_poster s ts
]

abbrev pub add_sample : ℕ → ℤ → List (ℕ × ℤ) → List (ℕ × ℤ)
add_sample block bound [] = (block, bound) ∷ []
add_sample block bound ((other, old) ∷ samples) =
    if ltb block other
    then (block, bound) ∷ (other, old) ∷ samples
    else (if block == other
        then (block, bound) ∷ samples
        else ((other, old) ∷ add_sample block bound samples))
