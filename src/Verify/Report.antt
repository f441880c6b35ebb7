-- ===== src/Verify/Report.antt =====
-- verify.rs, `verify_dir`: which step of the check decides the report. What each step reads or runs is a
-- parameter, a field of the evidence; of the lines of the report only the status is kept.
use Prim.Native.String.{String}
use crossfoot.Base.{
  ℕ, ◌≡◌, Bool, true, ◌&&◌, not, Option, none, some, same_text, if◌then◌else◌, Result, ok, err,
}
use crossfoot.Verify.Hashes.{HashError}

pub data Status : Type 0 where
  verified no_result unreadable unsupported_format hash_mismatch replay_mismatch bundle_incomplete :
      Status
  replay_failed code_mismatch refetch_mismatch refetch_failed : Status

-- What comes of reading result.json; `loaded` has its target.
pub data ResultFile : Type 0 where
  missing broken : ResultFile
  loaded : Option String → ResultFile

-- What comes of the replay: the bytes of the result again, other bytes, a read that the bundle lacks, or
-- another failure.
pub data Replayed : Type 0 where
  reproduced differs incomplete failed : Replayed

-- What comes of the refetch: agreement, a result that differs, or another failure.
pub data Refetched : Type 0 where
  agreed mismatch unavailable : Refetched

pub record Options : Type 0 where
  pub require_same_code : Bool
  pub refetch : Bool

-- `format` is none when manifest.json is not readable, and the text of its format otherwise.
pub record Evidence : Type 0 where
  pub format : Option String
  pub result : ResultFile
  pub hashes : Result HashError String
  pub same_code : Bool
  pub replayed : Replayed
  pub refetched : Refetched

pub record Report : Type 0 where
  pub exit_code : ℕ
  pub status : Status

abbrev pub exit_verified : ℕ
exit_verified = 0

abbrev pub exit_other : ℕ
exit_other = 1

abbrev pub exit_hash_mismatch : ℕ
exit_hash_mismatch = 2

abbrev pub exit_replay_mismatch : ℕ
exit_replay_mismatch = 3

abbrev pub exit_bundle_incomplete : ℕ
exit_bundle_incomplete = 4

abbrev pub exit_code_mismatch : ℕ
exit_code_mismatch = 5

abbrev pub exit_refetch_mismatch : ℕ
exit_refetch_mismatch = 6

abbrev pub failing : ℕ → Status → Report
failing code status = record { exit_code = code; status = status }

-- The status of a result that was reproduced, by the refetch and the code identity.
unfoldable pub settle : Options → Evidence → Report
settle options evidence =
    let same_enough = not (options.require_same_code && not evidence.same_code) in
    let offline =
      if same_enough
      then failing exit_verified verified
      else failing exit_code_mismatch code_mismatch in
    if options.refetch
    then (elim evidence.refetched [
      | agreed ↦ offline
      | mismatch ↦ failing exit_refetch_mismatch refetch_mismatch
      | unavailable ↦ failing exit_other refetch_failed
    ])
    else offline

unfoldable pub judge_replay : Options → Evidence → Report
unfolding settle
judge_replay options evidence = elim evidence.replayed [
  | reproduced ↦ settle options evidence
  | differs ↦ failing exit_replay_mismatch replay_mismatch
  | incomplete ↦ failing exit_bundle_incomplete bundle_incomplete
  | failed ↦ failing exit_other replay_failed
]

abbrev pub judge_hashes : Options → Evidence → Option String → Report
judge_hashes options evidence target = elim evidence.hashes [
  | err e ↦ failing exit_hash_mismatch hash_mismatch
  | ok root ↦ elim target [
    | none ↦ failing exit_verified no_result
    | some name ↦ judge_replay options evidence
  ]
]

abbrev pub judge_result : Options → Evidence → Report
judge_result options evidence = elim evidence.result [
  | broken ↦ failing exit_other unreadable
  | missing ↦ judge_hashes options evidence none
  | loaded target ↦ judge_hashes options evidence target
]

unfoldable pub verify_dir : (manifest_format : String) → Options → Evidence → Report
verify_dir manifest_format options evidence = elim evidence.format [
  | none ↦ failing exit_other unreadable
  | some format ↦
      if same_text format manifest_format
      then judge_result options evidence
      else failing exit_other unsupported_format
]

-- The evidence for a verified bundle: the format is known, the result names a target, the hashes are
-- accepted, the replay reproduces the result, the refetch agrees if it is asked for, and the code is the
-- same if that is required.
pub record IsVerified (manifest_format : String) (options : Options) (evidence : Evidence)
    : Type 0 where
  pub known : evidence.format ≡ some manifest_format
  pub target : String
  pub stated : evidence.result ≡ loaded (some target)
  pub root : String
  pub hashed : evidence.hashes ≡ ok root
  pub replayed : evidence.replayed ≡ reproduced
  pub refetched : options.refetch ≡ true → evidence.refetched ≡ agreed
  pub same : options.require_same_code ≡ true → evidence.same_code ≡ true
