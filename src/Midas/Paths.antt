-- ===== src/Midas/Paths.antt =====
-- midas.rs, `replay_feed`: the posts of each path, counted over the rounds.
use Prim.Native.String.{String}
use crossfoot.Base.{
  ℕ, ◌+◌, ◌≡◌, ap, ◌∙◌, refl, arith, Bool, true, false, not, Option, some, List, [], ◌∷◌, ℤ,
  if◌then◌else◌,
}
use crossfoot.Midas.{
  AttributedRound, BoundSegment, PostPath, safe, safe3, raw, raw3, other, unattributed,
}
use crossfoot.Midas.Guards.{is_external}
use crossfoot.Midas.Feed.{FeedReplayInput, Tally, PostCounts}
use crossfoot.Midas.Rounds.{count_path, count_post, note_poster, replay_round, replay_rounds}
use crossfoot.Midas.Frame.{Rules-trans}
use crossfoot.Midas.Timeline.{judge_round-Rules, note_flag-Rules}

abbrev pub same_path : PostPath → PostPath → Bool
same_path safe safe = true
same_path safe3 safe3 = true
same_path raw raw = true
same_path raw3 raw3 = true
same_path other other = true
same_path unattributed unattributed = true
same_path _ _ = false

abbrev pub one_on : (here : Bool) (path taken : PostPath) → ℕ
one_on here path taken = if here then (if same_path path taken then 1 else 0) else 0

-- The rounds that took the path, of those the test selects.
unfoldable pub posts_on : (AttributedRound → Bool) → PostPath → List AttributedRound → ℕ
posts_on test path [] = 0
posts_on test path (round ∷ rounds) =
    one_on (test round) path round.attribution.path + posts_on test path rounds

-- The counts `after` are those `before` and the selected rounds, each under its path.
pub record Adds (test : AttributedRound → Bool) (rounds : List AttributedRound)
    (before after : PostCounts) : Type 0 where
  pub safe : after.safe ≡ before.safe + posts_on test safe rounds
  pub safe3 : after.safe3 ≡ before.safe3 + posts_on test safe3 rounds
  pub raw : after.raw ≡ before.raw + posts_on test raw rounds
  pub raw3 : after.raw3 ≡ before.raw3 + posts_on test raw3 rounds
  pub unattributed :
      after.unattributed
      ≡ before.unattributed + (posts_on test other rounds + posts_on test unattributed rounds)

record AddsOne (here : Bool) (taken : PostPath) (before after : PostCounts) : Type 0 where
  safe : after.safe ≡ before.safe + one_on here safe taken
  safe3 : after.safe3 ≡ before.safe3 + one_on here safe3 taken
  raw : after.raw ≡ before.raw + one_on here raw taken
  raw3 : after.raw3 ≡ before.raw3 + one_on here raw3 taken
  unattributed :
      after.unattributed
      ≡ before.unattributed + (one_on here other taken + one_on here unattributed taken)

count_path-AddsOne : (path : PostPath) (c : PostCounts) → AddsOne true path c (count_path path c)
unfolding count_path
count_path-AddsOne safe c = ground arith
count_path-AddsOne safe3 c = ground arith
count_path-AddsOne raw c = ground arith
count_path-AddsOne raw3 c = ground arith
count_path-AddsOne other c = ground arith
count_path-AddsOne unattributed c = ground arith

AddsOne-skipped : (path : PostPath) (c : PostCounts) → AddsOne false path c c
AddsOne-skipped path c = ground arith

external-AddsOne :
    (origin : Bool) (path : PostPath) (c : PostCounts)
    → AddsOne origin path c (if origin then count_path path c else c)
external-AddsOne true path c = count_path-AddsOne path c
external-AddsOne false path c = AddsOne-skipped path c

internal-AddsOne :
    (origin : Bool) (path : PostPath) (c : PostCounts)
    → AddsOne (not origin) path c (if origin then c else count_path path c)
internal-AddsOne true path c = AddsOne-skipped path c
internal-AddsOne false path c = count_path-AddsOne path c

-- One round more at the front.
Adds-cons :
    {test : AttributedRound → Bool} {rounds : List AttributedRound} {a b c d : PostCounts}
    (round : AttributedRound)
    → AddsOne (test round) round.attribution.path a b
    → c ≡ b
    → Adds test rounds c d
    → Adds test (round ∷ rounds) a d
unfolding posts_on
Adds-cons round one same rest = record {
  safe = omega (arith, one.safe, ap (λ p. p.safe) same, rest.safe);
  safe3 = omega (arith, one.safe3, ap (λ p. p.safe3) same, rest.safe3);
  raw = omega (arith, one.raw, ap (λ p. p.raw) same, rest.raw);
  raw3 = omega (arith, one.raw3, ap (λ p. p.raw3) same, rest.raw3);
  unattributed = omega (arith, one.unattributed, ap (λ p. p.unattributed) same, rest.unattributed);
}

abbrev pub any_origin : AttributedRound → Bool
any_origin round = true

abbrev pub external_post : AttributedRound → Bool
external_post round = is_external round.attribution.via

abbrev pub internal_post : AttributedRound → Bool
internal_post round = not (is_external round.attribution.via)

Adds-none : (test : AttributedRound → Bool) (c : PostCounts) → Adds test [] c c
unfolding posts_on
Adds-none test c = ground arith

-- The three counts of a tally.
pub record AddsAll (rounds : List AttributedRound) (t t' : Tally) : Type 0 where
  pub counts : Adds any_origin rounds t.counts t'.counts
  pub external : Adds external_post rounds t.external t'.external
  pub internal : Adds internal_post rounds t.internal t'.internal

module _ (to_lowercase : String → String) (input : FeedReplayInput) (segments : List BoundSegment)
    (first_post_value : ℤ) where
  -- Of a round's steps only the first changes the counts.
  replay_round_counts :
      (previous : Option AttributedRound) (round : AttributedRound) (t : Tally)
      → let t' = replay_round to_lowercase input segments first_post_value previous round t in
        (t'.counts ≡ (count_post round t).counts)
        × (t'.external ≡ (count_post round t).external)
        × (t'.internal ≡ (count_post round t).internal)
  unfolding replay_round
  replay_round_counts previous round t =
      let flagged = note_flag-Rules input segments first_post_value round _ in
      let judged = judge_round-Rules input segments first_post_value previous round _ refl in
      let kept = Rules-trans flagged judged in
      let start = noted round (count_post round t) in
      (kept.counts ∙ start.0, kept.external ∙ start.1, kept.internal ∙ start.2)
    where
      noted :
          (round : AttributedRound) (t : Tally)
          → ((note_poster to_lowercase round t).counts ≡ t.counts)
            × ((note_poster to_lowercase round t).external ≡ t.external)
            × ((note_poster to_lowercase round t).internal ≡ t.internal)
      noted round t = (grind arith, grind arith, grind arith)

  pub replay_rounds-AddsAll :
      (previous : Option AttributedRound) (rounds : List AttributedRound) (t : Tally)
      → AddsAll rounds t
          (replay_rounds to_lowercase input segments first_post_value previous rounds t)
  unfolding replay_rounds count_post
  replay_rounds-AddsAll previous [] t = record {
    counts = Adds-none any_origin t.counts;
    external = Adds-none external_post t.external;
    internal = Adds-none internal_post t.internal;
  }
  replay_rounds-AddsAll previous (round ∷ rounds) t =
      let path = round.attribution.path in
      let origin = is_external round.attribution.via in
      let (all, outer, inner) = replay_round_counts previous round t in
      let rest = replay_rounds-AddsAll (some round) rounds _ in
      record {
        counts = Adds-cons round (count_path-AddsOne path t.counts) all rest.counts;
        external = Adds-cons round (external-AddsOne origin path t.external) outer rest.external;
        internal = Adds-cons round (internal-AddsOne origin path t.internal) inner rest.internal;
      }
