-- ===== src/Midas/Posts.antt =====
-- midas.rs, `replay_feed`: the counts of posts by path and by origin.
use Prim.Native.String.{String}
use crossfoot.Base.{
  ℕ, suc, ◌+◌, ◌≡◌, refl, arith, Bool, Option, none, some, List, [], ◌∷◌, ℤ, length, if◌then◌else◌,
}
use crossfoot.Midas.{
  AttributedRound, BoundSegment, bound_segments, PostPath, safe, safe3, raw, raw3, other,
  unattributed, is_setter,
}
use crossfoot.Midas.Feed.{FeedReplayInput, Tally, PostCounts}
use crossfoot.Midas.Rounds.{
  count_path, count_post, note_poster, replay_round, replay_rounds, tally_rounds, answer_of_first,
  no_posts, no_tally, segment_samples,
}
use crossfoot.Midas.Replay.{count_unattributed, replay_feed}
use crossfoot.Midas.Frame.{Rules-trans}
use crossfoot.Midas.Paths.{Adds, any_origin, external_post, internal_post, replay_rounds-AddsAll}
use crossfoot.Midas.Timeline.{judge_round-Rules, note_flag-Rules}

-- Every post that the chain accepted.
abbrev pub posted : PostCounts → ℕ
posted c = c.safe + c.safe3 + c.raw + c.raw3 + c.unattributed

-- The counts of two origins are those of all posts, path by path.
pub record Splits (all one two : PostCounts) : Type 0 where
  pub safe : all.safe ≡ one.safe + two.safe
  pub safe3 : all.safe3 ≡ one.safe3 + two.safe3
  pub raw : all.raw ≡ one.raw + two.raw
  pub raw3 : all.raw3 ≡ one.raw3 + two.raw3
  pub unattributed : all.unattributed ≡ one.unattributed + two.unattributed

-- The counts after a number of rounds, some of them unattributed.
record Counted (rounds gaps : ℕ) (t : Tally) : Type 0 where
  total : posted t.counts ≡ rounds
  gap : t.counts.unattributed ≡ gaps
  failed : t.counts.failed ≡ 0
  split : Splits t.counts t.external t.internal

abbrev gap_of : AttributedRound → ℕ
gap_of round = if is_setter round.attribution.path then 0 else 1

Splits-count_path :
    (path : PostPath) (origin : Bool) (all one two : PostCounts)
    → Splits all one two
    → Splits
        (count_path path all)
        (if origin then count_path path one else one)
        (if origin then two else count_path path two)
unfolding count_path
Splits-count_path safe origin all one two h = ground arith
Splits-count_path safe3 origin all one two h = ground arith
Splits-count_path raw origin all one two h = ground arith
Splits-count_path raw3 origin all one two h = ground arith
Splits-count_path other origin all one two h = ground arith
Splits-count_path unattributed origin all one two h = ground arith

posted-count_path : (path : PostPath) (c : PostCounts) → posted (count_path path c) ≡ suc (posted c)
unfolding count_path
posted-count_path safe c = omega arith
posted-count_path safe3 c = omega arith
posted-count_path raw c = omega arith
posted-count_path raw3 c = omega arith
posted-count_path other c = omega arith
posted-count_path unattributed c = omega arith

count_path_gaps :
    (path : PostPath) (c : PostCounts)
    → ((count_path path c).unattributed ≡ c.unattributed + (if is_setter path then 0 else 1))
      × ((count_path path c).failed ≡ c.failed)
unfolding count_path
count_path_gaps safe c = omega arith
count_path_gaps safe3 c = omega arith
count_path_gaps raw c = omega arith
count_path_gaps raw3 c = omega arith
count_path_gaps other c = omega arith
count_path_gaps unattributed c = omega arith

count_post-Counted :
    {rounds gaps : ℕ} (round : AttributedRound) (t : Tally)
    → Counted rounds gaps t
    → Counted (suc rounds) (gaps + gap_of round) (count_post round t)
unfolding count_post
count_post-Counted round t h =
    let path = round.attribution.path in
    let (gap, failed) = count_path_gaps path t.counts in
    record {
      total = omega (arith, posted-count_path path t.counts, h.total);
      gap = omega (arith, gap, h.gap);
      failed = omega (arith, failed, h.failed);
      split = Splits-count_path path _ t.counts t.external t.internal h.split;
    }

-- Only the counts of a tally matter.
Counted-cong :
    {rounds gaps : ℕ} {t t' : Tally}
    → t'.counts ≡ t.counts
    → t'.external ≡ t.external
    → t'.internal ≡ t.internal
    → Counted rounds gaps t
    → Counted rounds gaps t'
Counted-cong counts external internal h = record {
  total = rw counts h.total;
  gap = rw counts h.gap;
  failed = rw counts h.failed;
  split = rw (counts, external, internal) h.split;
}

module _ (to_lowercase : String → String) (input : FeedReplayInput) (segments : List BoundSegment)
    (first_post_value : ℤ) where
  replay_round-Counted :
      {rounds gaps : ℕ} (previous : Option AttributedRound) (round : AttributedRound) (t : Tally)
      → Counted rounds gaps t
      → Counted
          (suc rounds)
          (gaps + gap_of round)
          (replay_round to_lowercase input segments first_post_value previous round t)
  unfolding replay_round
  replay_round-Counted previous round t h =
      let flagged = note_flag-Rules input segments first_post_value round _ in
      let judged = judge_round-Rules input segments first_post_value previous round _ refl in
      let kept = Rules-trans flagged judged in
      let start = noted-Counted round t (count_post-Counted round t h) in
      Counted-cong kept.counts kept.external kept.internal start
    where
      noted-Counted :
          {n gaps : ℕ} (round : AttributedRound) (t : Tally)
          → Counted n gaps (count_post round t)
          → Counted n gaps (note_poster to_lowercase round (count_post round t))
      noted-Counted round t h = Counted-cong (grind arith) (grind arith) (grind arith) h

  replay_rounds-Counted :
      (previous : Option AttributedRound) (rounds : List AttributedRound) (n gaps : ℕ) (t : Tally)
      → Counted n gaps t
      → Counted
          (n + length rounds)
          (gaps + count_unattributed rounds)
          (replay_rounds to_lowercase input segments first_post_value previous rounds t)
  unfolding replay_rounds count_unattributed
  replay_rounds-Counted previous [] n gaps t h = record {
    total = omega arith;
    gap = omega arith;
    failed = h.failed;
    split = h.split;
  }
  replay_rounds-Counted previous (round ∷ rounds) n gaps t h =
      let step = replay_round-Counted previous round t h in
      let rest = replay_rounds-Counted (some round) rounds (suc n) (gaps + gap_of round) _ step in
      record {
        total = omega (arith, rest.total);
        gap = omega (arith, rest.gap);
        failed = rest.failed;
        split = rest.split;
      }

-- Each round is counted once: the counts add up to the rounds, and those of external and of internal
-- posts to those of all posts path by path. Each count is the number of rounds that took its path, in
-- all and over the external and the internal posts, the unattributed count being those on another path
-- or on none; it is the count of rounds whose path is no setter. Each failed transaction is counted
-- once.
pub replay_feed-posts :
    (to_lowercase : String → String) (input : FeedReplayInput)
    → (posted (replay_feed to_lowercase input).posts ≡ length input.rounds)
      × Splits
          (replay_feed to_lowercase input).posts
          (replay_feed to_lowercase input).posts_by_origin.external
          (replay_feed to_lowercase input).posts_by_origin.internal
      × ((replay_feed to_lowercase input).posts.unattributed
          ≡ (replay_feed to_lowercase input).unattributed)
      × ((replay_feed to_lowercase input).posts.failed ≡ length input.failed)
      × Adds any_origin input.rounds no_posts (replay_feed to_lowercase input).posts
      × Adds external_post input.rounds no_posts
          (replay_feed to_lowercase input).posts_by_origin.external
      × Adds internal_post input.rounds no_posts
          (replay_feed to_lowercase input).posts_by_origin.internal
unfolding replay_feed tally_rounds
replay_feed-posts to_lowercase input =
    let by_path =
      replay_rounds-AddsAll to_lowercase input (bound_segments input.bound_groups)
        (answer_of_first input.rounds) none input.rounds
        (no_tally (segment_samples (bound_segments input.bound_groups) [])) in
    let all =
      replay_rounds-Counted to_lowercase input (bound_segments input.bound_groups)
        (answer_of_first input.rounds) none input.rounds 0 0
        (no_tally (segment_samples (bound_segments input.bound_groups) []))
        (record {
          total = refl;
          gap = refl;
          failed = refl;
          split = record {
            safe = refl;
            safe3 = refl;
            raw = refl;
            raw3 = refl;
            unattributed = refl;
          };
        }) in
    (
      omega (arith, all.total),
      record {
        safe = all.split.safe;
        safe3 = all.split.safe3;
        raw = all.split.raw;
        raw3 = all.split.raw3;
        unattributed = all.split.unattributed;
      },
      omega (arith, all.gap),
      omega (arith, all.failed),
      record {
        safe = by_path.counts.safe;
        safe3 = by_path.counts.safe3;
        raw = by_path.counts.raw;
        raw3 = by_path.counts.raw3;
        unattributed = by_path.counts.unattributed;
      },
      by_path.external,
      by_path.internal,
    )
