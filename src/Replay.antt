-- ===== src/Replay.antt =====
-- The reference replay of the savings module: cli/src/model/replay.rs. The account is a record, an
-- operation on `&mut AccountState` returns the new account, and an error leaves none.
mod Defs
pub mod Interest
pub mod Save
pub mod Recognition
pub mod Fold
pub mod Accounting
pub mod Price
mod Tests
pub use Defs.{
  interest_delay, AccountState, empty, Action, save, withdraw, RecognitionEvent, ReplayStep,
  Mismatch, ReplayResult, Error,
}
unfoldable pub use Defs.{
  calculate_interest, refresh, apply_save, apply_withdraw, apply_recognition, compare_interest, act,
  replay_loop, replay, accrued_at, total_assets, price,
}
