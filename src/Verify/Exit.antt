-- ===== src/Verify/Exit.antt =====
-- verify.rs, `verify_dir`: what a verified bundle shows, and the exit codes.
use Prim.Native.String.{String}
use mathlib.Core.Option.{some-injective}
use crossfoot.Base.{
  ◌≡◌, ◌↔◌, inl, inr, refl, ap, arith, Bool, true, false, Option, none, some, same_text,
  same_text_iff, Result, ok, err, Bool-cases,
}
use crossfoot.Verify.Hashes.{HashError}
use crossfoot.Verify.Report.{
  Status, verified, ResultFile, missing, broken, loaded, Replayed, reproduced, differs, incomplete,
  failed, Refetched, agreed, mismatch, unavailable, Options, Evidence, Report, settle, judge_replay,
  verify_dir, IsVerified,
}

abbrev evidence_of :
    Option String → ResultFile → Result HashError String → Bool → Replayed → Refetched → Evidence
evidence_of format result hashes same_code replayed refetched = record {
  format = format;
  result = result;
  hashes = hashes;
  same_code = same_code;
  replayed = replayed;
  refetched = refetched;
}

module _ (manifest_format : String) (options : Options) where
  abbrev report :
      Option String → ResultFile → Result HashError String → Bool → Replayed → Refetched → Report
  report format result hashes same_code replayed refetched =
      verify_dir manifest_format options
        (evidence_of format result hashes same_code replayed refetched)

  abbrev Shows :
      Option String → ResultFile → Result HashError String → Bool → Replayed → Refetched → Type 0
  Shows format result hashes same_code replayed refetched =
      IsVerified manifest_format options
        (evidence_of format result hashes same_code replayed refetched)

  abbrev settled_status : String → String → String → Bool → Refetched → Status
  settled_status t f root same_code refetched =
      (settle options
        (evidence_of (some f) (loaded (some t)) (ok root) same_code reproduced refetched)).status

  agreed_of :
      (t f root : String) (s : Bool) (q : Refetched)
      → settled_status t f root s q ≡ verified
      → options.refetch ≡ true
      → q ≡ agreed
  unfolding settle
  agreed_of t f root s agreed h e = refl
  agreed_of t f root s mismatch h e = absurd (ground arith)
  agreed_of t f root s unavailable h e = absurd (ground arith)

  same_of :
      (t f root : String) (s : Bool) (q : Refetched)
      → settled_status t f root s q ≡ verified
      → options.require_same_code ≡ true
      → s ≡ true
  unfolding settle
  same_of t f root true q h e = refl
  same_of t f root false agreed h e = absurd (ground arith)
  same_of t f root false mismatch h e = absurd (ground arith)
  same_of t f root false unavailable h e = absurd (ground arith)

  status-Shows :
      (format : Option String) (result : ResultFile) (hashes : Result HashError String)
      (same_code : Bool) (replayed : Replayed) (refetched : Refetched)
      → (report format result hashes same_code replayed refetched).status ≡ verified
      → Shows format result hashes same_code replayed refetched
  unfolding verify_dir judge_replay
  status-Shows none r hashes s p q h = cc
  status-Shows (some f) broken hashes s p q h = absurd (ground arith)
  status-Shows (some f) missing (err e) s p q h = absurd (ground arith)
  status-Shows (some f) missing (ok root) s p q h = absurd (ground arith)
  status-Shows (some f) (loaded t) (err e) s p q h = absurd (ground arith)
  status-Shows (some f) (loaded none) (ok root) s p q h = absurd (ground arith)
  status-Shows (some f) (loaded (some t)) (ok root) s differs q h = absurd (ground arith)
  status-Shows (some f) (loaded (some t)) (ok root) s incomplete q h = absurd (ground arith)
  status-Shows (some f) (loaded (some t)) (ok root) s failed q h = absurd (ground arith)
  status-Shows (some f) (loaded (some t)) (ok root) s reproduced q h =
      elim (Bool-cases (same_text f manifest_format)) [
        | inl same ↦
            let settled : settled_status t f root s q ≡ verified = ground (arith, h, same) in
            record {
              known = ap some ((same_text_iff f manifest_format).0 same);
              target = t;
              stated = refl;
              root = root;
              hashed = refl;
              replayed = refl;
              refetched = agreed_of t f root s q settled;
              same = same_of t f root s q settled;
            }
        | inr other ↦ absurd (ground arith)
      ]

  settle-verified :
      (evidence : Evidence)
      → (options.refetch ≡ true → evidence.refetched ≡ agreed)
      → (options.require_same_code ≡ true → evidence.same_code ≡ true)
      → (settle options evidence).status ≡ verified
  unfolding settle
  settle-verified evidence asked required = elim (Bool-cases options.refetch) [
    | inl e ↦ simp (e, asked e) (ground (arith, required))
    | inr e ↦ simp e (ground (arith, required))
  ]

  Shows-status :
      (format : Option String) (result : ResultFile) (hashes : Result HashError String)
      (same_code : Bool) (replayed : Replayed) (refetched : Refetched)
      → Shows format result hashes same_code replayed refetched
      → (report format result hashes same_code replayed refetched).status ≡ verified
  unfolding verify_dir judge_replay
  Shows-status none r hashes s p q v = cc (v.known)
  Shows-status (some f) broken hashes s p q v = cc (v.stated)
  Shows-status (some f) missing hashes s p q v = cc (v.stated)
  Shows-status (some f) (loaded none) hashes s p q v = cc (v.stated)
  Shows-status (some f) (loaded (some t)) (err e) s p q v = cc (v.hashed)
  Shows-status (some f) (loaded (some t)) (ok root) s differs q v = cc (v.replayed)
  Shows-status (some f) (loaded (some t)) (ok root) s incomplete q v = cc (v.replayed)
  Shows-status (some f) (loaded (some t)) (ok root) s failed q v = cc (v.replayed)
  Shows-status (some f) (loaded (some t)) (ok root) s reproduced q v =
      let known = (same_text_iff f manifest_format).1 (some-injective _ _ v.known) in
      rw known (
        settle-verified (evidence_of (some f) (loaded (some t)) (ok root) s reproduced q)
          v.refetched v.same)

  -- A bundle is reported as verified exactly when its format is known, its result names a target, its
  -- hashes are accepted, the replay reproduces the result, the refetch agrees if one is asked for, and
  -- the code is the same if that is required.
  pub verify_dir-IsVerified :
      (evidence : Evidence)
      → ((verify_dir manifest_format options evidence).status ≡ verified)
        ↔ IsVerified manifest_format options evidence
  unfolding verify_dir judge_replay
  verify_dir-IsVerified evidence = (
    λ h.
        status-Shows evidence.format evidence.result evidence.hashes evidence.same_code
          evidence.replayed evidence.refetched h,
    λ v.
        Shows-status evidence.format evidence.result evidence.hashes evidence.same_code
          evidence.replayed evidence.refetched v,
  )
