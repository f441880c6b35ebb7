-- ===== src/Vault/Maple/Path.antt =====
-- maple.rs, `classify_path`: where a transaction that moved the accounting went. `to_lowercase` of
-- the standard library is the parameter `lower`.
use Prim.Native.String.{String}
use crossfoot.Base.{Bool, false, Option, none, some, if◌then◌else◌, same_text}

pub data AccountingPath : Type 0 where
  pool_delegate loan_manager_other_sender pool_manager_call loan_or_other_contract unattributed :
      AccountingPath

module _ (lower : String → String) where
  abbrev pub is_delegate : String → Option String → Bool
  is_delegate from none = false
  is_delegate from (some delegate) = same_text from (lower delegate)

  abbrev pub accounting_path :
      (from to : String) (delegate : Option String) (loan_manager manager : String) → AccountingPath
  accounting_path from to delegate loan_manager manager =
      if same_text to (lower loan_manager)
      then if is_delegate from delegate then pool_delegate else loan_manager_other_sender
      else (if same_text to (lower manager) then pool_manager_call else loan_or_other_contract)

  unfoldable pub classify_path :
      (from to delegate : Option String) (loan_manager manager : String) → AccountingPath
  classify_path (some from) (some to) delegate loan_manager manager =
      accounting_path (lower from) (lower to) delegate loan_manager manager
  classify_path _ _ delegate loan_manager manager = unattributed
