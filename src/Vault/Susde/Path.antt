-- ===== src/Vault/Susde/Path.antt =====
-- susde.rs, `classify_path`: where a transaction that distributed a reward went. `to_lowercase` of
-- the standard library is the parameter `lower`; the operator is compared as it is given.
use Prim.Native.String.{String}
use crossfoot.Base.{Bool, false, Option, none, some, if◌then◌else◌, same_text}

pub data RewardPath : Type 0 where
  operator_via_distributor distributor_other_sender direct_rewarder other unattributed : RewardPath

abbrev pub is_text : String → Option String → Bool
is_text text none = false
is_text text (some given) = same_text text given

-- `DISTRIBUTOR` and `VAULT` are the constants `distributor` and `vault`.
abbrev pub distributor : String
distributor = "0xf2fa332bD83149c66b09B45670bCe64746C6b439"

abbrev pub vault : String
vault = "0x9D39A5DE30e57443BfF2A8307A4256c8797A3497"

module _ (lower : String → String) where
  abbrev pub reward_path : (from to : String) → Option String → RewardPath
  reward_path from to operator =
      if same_text to (lower distributor)
      then if is_text from operator then operator_via_distributor else distributor_other_sender
      else (if same_text to (lower vault) then direct_rewarder else other)

  unfoldable pub classify_path : (from to operator : Option String) → RewardPath
  classify_path (some from) (some to) operator = reward_path (lower from) (lower to) operator
  classify_path _ _ operator = unattributed
