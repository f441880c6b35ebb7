-- ===== src/Lib.antt =====
-- Crossfoot: recomputation of on-chain product state from public inputs.
--
-- The command line tool under cli/ reads chain state at pinned blocks, recomputes what the
-- contracts should hold, and compares the two to the wei. This library models the parts that
-- compute; reading the chain, JSON, files and text output are not modelled.
--
--   * Base: Boolean tests, results and options with their chains, the unsigned machine integers
--     (u64 and u128 as plain numbers whose unchecked operations wrap, as in an optimised build,
--     and whose checked_ forms are options), signed differences, and bit lemmas.
--   * Wide (cli/src/model/wide.rs): mul_full, div_256, mul_div_floor and mul_add_div_floor. The long
--     division recurses on the number of bits still to be read, 256 of them. Wide.Product,
--     Wide.Division, Wide.Quotient and Wide.Floor hold its proofs.
--   * Clock (cli/src/model/clock.rs): RateSegment, TickClock and its methods in Clock.Defs. A loop
--     over the segments is a recursion over the list; an index into an empty series, which panics,
--     is none.
--   * Replay (cli/src/model/replay.rs): AccountState and the operations on it in Replay.Defs. A
--     method on &mut AccountState returns the new account; each error message is a constructor.
--     It takes the clock's ticks and rate_at, and price calls Wide.mul_div_floor.
--   * Verdict (cli/src/model/verdict.rs): the comparison rows and the run verdict, whose inputs come
--     from the replay's mismatches and the compared fields.
--   * Vault: the accrual formulas of the vault targets, all over Wide. Vault.Ray and Vault.Sky
--     (cli/src/sky.rs), Vault.Susde (cli/src/susde.rs), Vault.Usdy (cli/src/usdy.rs, which compounds
--     with Sky's rpow) and Vault.Maple (cli/src/maple.rs). The loop of rpow takes 65 rounds of fuel:
--     each round halves a u64, so at most 64 run before the test that ends it. Vault.Susde.Path and
--     Vault.Maple.Path classify transactions; to_lowercase of the standard library is a parameter.
--   * Mtbill (cli/src/model/mtbill.rs): the eras, the deviation formula on i128 (ℤ with the wrap
--     written out), the posting rules, cadence, monotonicity, supply and wrapper checks and the
--     overall verdict. The none of expected_base18 and c7_wrapper is a division by zero that panics.
--     The JSON of a violation is a constructor with the values it reports; the floating point figures
--     and the texts of the summaries are not modelled.
--   * Decimal and Decision (cli/src/model/decision.rs): the percentages that a policy and a deviation
--     are written in, and the consumer's decision. Decision.Rows has the rows of the table,
--     Decision.Gates those of the policy, Decision.Decide puts them together. An expect that fails
--     is none. The sentences that go with the reasons are not modelled. 39 digits print a u128.
--   * Frax (cli/src/frax.rs): 256-bit numbers as four limbs, exp2 by its factors, the price of a
--     share and the annual rate. The fuel of the carry loop is the number of limbs that are left, so
--     that running out of it is the index out of bounds; that is the none of update and mul_rows, and
--     the none of lower_limbs is the refusal of a product that is too large.
--   * Abi (cli/src/abi.rs): hex texts, decimal texts of words, calldata and return data, over the
--     bytes of a text. Keccak is a parameter. 78 digits of fuel print a word of 256 bits.
--   * Svzchf (cli/src/svzchf.rs): the search for the deployment block and the sweep over the logs.
--     Reading the chain is a parameter, a function of the number of the request and its range; writing
--     the bundle is taken to succeed. The search takes 64 rounds, since each halves a u64; the sweep
--     takes (blocks left + 1) * (largest chunk + 1), since a round shortens one or the other. The
--     labels of requests and the JSON of the summary are not modelled.
--   * Midas (cli/src/model/midas.rs): the posting paths, the records of a feed's rounds and bounds,
--     the bound segments, the blocks whose state is read, liveness and the feed verdict. It shares
--     the deviation formula of Mtbill. replay_feed is in Midas.Feed (its records), Midas.Guards,
--     Midas.Events and Midas.Bounded (what a round does under each guard), Midas.Rounds (the loop, a
--     recursion over the rounds that hands the round before on) and Midas.Replay (the passes after it,
--     and the verdict that cli/src/run_midas.rs takes). A finding is a constructor with its values;
--     a notice carries the kind that its configuration names. Midas.Agreement and Midas.Tallies,
--     Midas.Frame, Midas.Timeline, Midas.Paths and Midas.Posts, Midas.OverBound, Midas.Marks and
--     Midas.Verdict hold the proofs.
--   * Verify (cli/src/verify.rs, and the checksum list of cli/src/bundle.rs): the first difference of
--     two JSON values, whose objects are lists of fields with ascending keys; the hash checks in
--     Verify.Hashes, over a disk whose files and hash are parameters, and whose listings are too, though
--     cli/src/bundle.rs collects them with recursive reads of directories; the sample of a refetch
--     in Verify.Sample; and in Verify.Report the step that decides the status and the exit code.
--     Verify.Paths, Verify.Locates, Verify.Sealed, Verify.Exit and Verify.Spread hold the proofs.
--
-- A decimal string that the tool writes for JSON is the number that it writes. The runs, the
-- fetching of other inputs, the stored-history and benchmark checks of mTBILL, the totals of a Midas
-- family, the ACTUS cross-check, the writing of bundles and their consumption are not modelled.
pub mod Base
pub mod Wide
pub mod Clock
pub mod Replay
pub mod Verdict
pub mod Verify
pub mod Vault
pub mod Mtbill
pub mod Abi
pub mod Svzchf
pub mod Frax
pub mod Midas
pub mod Decimal
pub mod Decision
