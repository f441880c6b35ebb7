-- ===== src/Midas.antt =====
-- The posting path of a Midas feed: cli/src/model/midas.rs. The data and the decisions on them here,
-- the replay of a feed and its findings in the modules below. A `BTreeMap` is a function to an option, and a
-- `BTreeSet` of numbers an ascending list.
pub mod Allow
pub mod Feed
pub mod Guards
pub mod Events
pub mod Bounded
pub mod Rounds
pub mod Replay
pub mod Agreement
pub mod Tallies
pub mod Frame
pub mod Timeline
pub mod Paths
pub mod Posts
pub mod OverBound
pub mod Marks
pub mod Verdict
mod Tests
use Prim.Native.String.{String}
use crossfoot.Base.{
  ℕ, ◌+◌, ◌-◌, ◌*◌, Bool, true, false, ◌&&◌, ◌||◌, not, Option, none, some, List, [], ◌∷◌, ◌++◌,
  leb, ltb, ◌==◌, if◌then◌else◌, and_then, ℤ, pos, negsuc, ◌+ℤ◌, ◌-ℤ◌, ◌*ℤ◌, quot, abs, wrap128,
  ltb_ℤ, half_i128, min, saturating_sub,
}
use crossfoot.Mtbill.{deviation, is_zero}

pub data PostPath : Type 0 where
  safe safe3 raw raw3 other unattributed : PostPath

abbrev pub path_name : PostPath → String
path_name safe = "safe"
path_name safe3 = "safe3"
path_name raw = "raw"
path_name raw3 = "raw3"
path_name other = "other"
path_name unattributed = "unattributed"

abbrev pub is_unchecked : PostPath → Bool
is_unchecked raw = true
is_unchecked raw3 = true
is_unchecked _ = false

abbrev pub is_checked : PostPath → Bool
is_checked safe = true
is_checked safe3 = true
is_checked _ = false

abbrev pub is_setter : PostPath → Bool
is_setter path = is_checked path || is_unchecked path

pub record SetterTx : Type 0 where
  pub hash : String
  pub block : ℕ
  pub timestamp : ℕ
  pub from : String
  pub path : PostPath
  pub selector : String
  pub value : Option ℤ
  pub flag : Option Bool
  pub failed : Bool

pub record RoundEvent : Type 0 where
  pub round_id : ℕ
  pub answer : ℤ
  pub timestamp : ℕ
  pub block : ℕ
  pub log_index : ℕ
  pub transaction_hash : String
  pub fields : String → Option ℤ
  pub poster : Option String

pub record ReferenceMove : Type 0 where
  pub block : ℕ
  pub log_index : ℕ
  pub timestamp : ℕ
  pub transaction_hash : String
  pub old : ℤ
  pub new : ℤ
  pub checked : Bool

-- On `i128`, whose operations wrap.
unfoldable pub deviation_over_mean : ℤ → ℤ → ℤ → Option ℤ
unfolding ◌+ℤ◌ ◌-ℤ◌ ◌*ℤ◌ quot wrap128
deviation_over_mean reference value unit =
    let mean = quot (wrap128 (reference +ℤ value)) (pos 2) in
    let distance = wrap128 (abs (wrap128 (reference -ℤ value))) in
    let scaled = wrap128 (wrap128 (distance *ℤ unit) *ℤ pos 100) in
    if is_zero mean then none else some (wrap128 (quot scaled mean))

pub data Via : Type 0 where
  external safe_routed trace relay event via_unattributed : Via

pub record Attribution : Type 0 where
  pub via : Via
  pub path : PostPath
  pub selector : String
  pub value : Option ℤ
  pub flag : Option Bool
  pub sender : String
  pub safe_chain : List String
  pub batch_index : Option ℕ

pub record AttributedRound : Type 0 where
  pub event : RoundEvent
  pub attribution : Attribution

pub record Bounds : Type 0 where
  pub max_answer_deviation : ℤ
  pub min_answer : ℤ
  pub max_answer : ℤ

pub record BoundEventGroup : Type 0 where
  pub block : ℕ
  pub transaction_hash : String
  pub timestamp : ℕ
  pub upgraded : Bool
  pub implementation : Option String
  pub initialized_version : Option ℕ
  pub before : Option Bounds
  pub after : Option Bounds

pub record BoundSegment : Type 0 where
  pub from_block : ℕ
  pub bounds : Bounds

pub record Era : Type 0 where
  pub index : ℕ
  pub implementation : String
  pub from_block : ℕ
  pub to_block : Option ℕ
  pub implementation_verified : Bool
  pub enforces_spacing : Bool
  pub spacing_source : String
  pub transaction_hash : String

-- `filter(from_block <= block).max_by_key(from_block)`, which keeps the last of equal keys.
unfoldable pub latest_from {ℓ} : {A : Type ℓ} → (A → ℕ) → ℕ → Option A → List A → Option A
latest_from from block best [] = best
latest_from from block best (x ∷ xs) = elim best [
  | none ↦ latest_from from block (if leb (from x) block then some x else none) xs
  | some b ↦
      latest_from from block
        (if leb (from x) block && leb (from b) (from x) then some x else some b) xs
]

unfoldable pub era_for : List Era → ℕ → Option Era
unfolding latest_from
era_for eras block = latest_from (λ era. era.from_block) block none eras

abbrev pub same_ℤ : ℤ → ℤ → Bool
same_ℤ (pos a) (pos b) = a == b
same_ℤ (negsuc a) (negsuc b) = a == b
same_ℤ _ _ = false

abbrev pub same_bounds : Bounds → Bounds → Bool
same_bounds a b =
    same_ℤ a.max_answer_deviation b.max_answer_deviation
    && same_ℤ a.min_answer b.min_answer
    && same_ℤ a.max_answer b.max_answer

abbrev pub segment_step : Option Bounds → BoundEventGroup → Option BoundSegment
segment_step last group = elim group.after [
  | none ↦ none
  | some after ↦ elim last [
    | none ↦ some (record { from_block = group.block; bounds = after })
    | some bounds ↦
        if same_bounds bounds after
        then none
        else some (record { from_block = group.block; bounds = after })
  ]
]

-- The loop, given the bounds of the last segment that it has pushed.
unfoldable pub segments_after : Option Bounds → List BoundEventGroup → List BoundSegment
segments_after last [] = []
segments_after last (group ∷ groups) = elim (segment_step last group) [
  | none ↦ segments_after last groups
  | some segment ↦ segment ∷ segments_after (some segment.bounds) groups
]

unfoldable pub bound_segments : List BoundEventGroup → List BoundSegment
unfolding segments_after
bound_segments groups = segments_after none groups

abbrev pub bounds_of : BoundSegment → Option Bounds
bounds_of segment = some segment.bounds

unfoldable pub implied_bounds : List BoundSegment → ℕ → Option Bounds
unfolding latest_from
implied_bounds segments block =
    and_then (latest_from (λ segment. segment.from_block) block none segments) bounds_of

-- Insertion into an ascending list without repetition.
abbrev pub insert : ℕ → List ℕ → List ℕ
insert n [] = n ∷ []
insert n (m ∷ ms) = if ltb n m then n ∷ m ∷ ms else (if n == m then m ∷ ms else (m ∷ insert n ms))

unfoldable pub blocks_before : List AttributedRound → List ℕ
unfolding saturating_sub
blocks_before [] = []
blocks_before (round ∷ rounds) = insert (saturating_sub round.event.block 1) (blocks_before rounds)

unfoldable pub all_blocks_after_first : List AttributedRound → List ℕ
unfolding blocks_before
all_blocks_after_first [] = []
all_blocks_after_first (first ∷ rounds) = blocks_before rounds

abbrev pub or_max : Option ℤ → ℤ
or_max none = pos (half_i128 - 1)
or_max (some value) = value

-- Whether a post needs the state of the block before it.
abbrev pub needs_state : ℤ → AttributedRound → AttributedRound → Bool
needs_state bound previous round =
    is_unchecked round.attribution.path
    || (is_checked round.attribution.path
        && ltb_ℤ bound (or_max (deviation previous.event.answer round.event.answer)))

unfoldable pub blocks_to_read : ℤ → List AttributedRound → List ℕ
unfolding saturating_sub
blocks_to_read bound [] = []
blocks_to_read bound (previous ∷ []) = []
blocks_to_read bound (previous ∷ round ∷ rounds) =
    let rest = blocks_to_read bound (round ∷ rounds) in
    if needs_state bound previous round
    then insert (saturating_sub round.event.block 1) rest
    else rest

unfoldable pub checked_blocks : List AttributedRound → Option ℤ → List ℕ
unfolding blocks_to_read
checked_blocks rounds none = []
checked_blocks rounds (some bound) = blocks_to_read bound rounds

pub data Liveness : Type 0 where
  init_only placeholder stale live : Liveness

abbrev pub liveness_name : Liveness → String
liveness_name init_only = "INIT_ONLY"
liveness_name placeholder = "PLACEHOLDER"
liveness_name stale = "STALE"
liveness_name live = "LIVE"

unfoldable pub liveness :
    (latest_round : ℕ) (latest_answer : ℤ) (last_post b1 stale_after : ℕ) (unit : ℤ) → Liveness
unfolding saturating_sub
liveness latest_round latest_answer last_post b1 stale_after unit =
    let is_placeholder = same_ℤ latest_answer unit in
    let is_stale = ltb stale_after (saturating_sub b1 last_post) in
    if latest_round == 1 && is_placeholder
    then init_only
    else (if ltb 1 latest_round && is_placeholder && is_stale
        then placeholder
        else (if is_stale then stale else live))

pub data PostingPath : Type 0 where
  guarded admin_guard_bypassed path_unattributed attributed aggregated : PostingPath

abbrev pub posting_path_name : PostingPath → String
posting_path_name guarded = "GUARDED"
posting_path_name admin_guard_bypassed = "ADMIN_GUARD_BYPASSED"
posting_path_name path_unattributed = "UNATTRIBUTED"
posting_path_name attributed = "ATTRIBUTED"
posting_path_name aggregated = "AGGREGATED"

-- The verdicts and the actions that `feed_verdict` names.
pub data FeedVerdict : Type 0 where
  input_gap observed_deviation insufficient_window source_stale consistent : FeedVerdict

pub data FeedAction : Type 0 where
  allow review : FeedAction

abbrev pub is_live : Liveness → Bool
is_live live = true
is_live _ = false

abbrev pub action_of : FeedVerdict → FeedAction
action_of consistent = allow
action_of _ = review

unfoldable pub feed_verdict :
    (unreadable : Bool) (bypasses unattributed_posts : ℕ)
    → Liveness
    → (is_guarded is_aggregated : Bool) → FeedVerdict × PostingPath × FeedAction
feed_verdict unreadable bypasses unattributed_posts liveness is_guarded is_aggregated =
    let path : PostingPath =
      if ltb 0 bypasses
      then admin_guard_bypassed
      else (if ltb 0 unattributed_posts
          then path_unattributed
          else (if is_aggregated
              then aggregated
              else (if is_guarded then guarded else attributed))) in
    let verdict : FeedVerdict =
      if unreadable
      then input_gap
      else (if ltb 0 bypasses
          then observed_deviation
          else (if ltb 0 unattributed_posts
              then insufficient_window
              else (if not (is_live liveness) then source_stale else consistent))) in
    (verdict, path, action_of verdict)

-- `saturating_mul` of an `i128`.
abbrev pub saturate : ℤ → ℤ
saturate (pos n) = pos (min n (half_i128 - 1))
saturate (negsuc n) = negsuc (min n (half_i128 - 1))

-- `value.abs() >= other.abs().saturating_mul(10)`
unfoldable pub dwarfs : ℤ → ℤ → Bool
unfolding ◌*ℤ◌ wrap128
dwarfs value against =
    not (ltb_ℤ (wrap128 (abs value)) (saturate (wrap128 (abs against) *ℤ pos 10)))

pub data Bypass : Type 0 where
  scale_reset from_placeholder valuation_move : Bypass

unfoldable pub classify_bypass : (value last_answer first_post_value unit : ℤ) → Bypass
unfolding dwarfs
classify_bypass value last_answer first_post_value unit =
    if not (is_zero value)
      && not (is_zero last_answer)
      && (dwarfs value last_answer || dwarfs last_answer value)
    then scale_reset
    else (if same_ℤ last_answer unit && same_ℤ first_post_value unit
        then from_placeholder
        else valuation_move)

pub record StateAtBlock : Type 0 where
  pub block : ℕ
  pub bound : ℤ
  pub last_round_id : ℕ
  pub last_answer : ℤ
