-- ===== src/Verify.antt =====
-- The check of a bundle: cli/src/verify.rs. A JSON number is its text; a JSON object is the list of its
-- fields, whose keys ascend, as they do in the map of the source. Reading files, hashing, reading JSON
-- and replaying a run are parameters. Two numbers are equal when their texts are, which tells -0.0 from
-- 0.0, as the source does not.
pub mod Paths
pub mod Locates
pub mod Hashes
pub mod Sealed
pub mod Report
pub mod Exit
pub mod Sample
pub mod Spread
mod Tests
use Prim.Native.String.{String, compare}
use Prim.Native.Nat.{Ordering}
use crossfoot.Base.{
  ℕ, suc, ◌+◌, ◌≡◌, Bool, true, false, Option, none, some, List, [], ◌∷◌, same_text, if◌then◌else◌,
}

mutual
  pub data Value : Type 0 where
    null : Value
    boolean : Bool → Value
    number : String → Value
    text : String → Value
    array : Items → Value
    object : Fields → Value

  pub data Items : Type 0 where
    nil : Items
    cons : Value → Items → Items

  pub data Fields : Type 0 where
    end : Fields
    field : String → Value → Fields → Fields

-- One step of a JSON path.
pub data Step : Type 0 where
  key : String → Step
  index : ℕ → Step

pub record Difference : Type 0 where
  pub path : List Step
  pub stated : Value
  pub computed : Value

abbrev pub under : Step → Option Difference → Option Difference
under step none = none
under step (some d) = some (record d { path = step ∷ d.path })

abbrev pub here : Value → Value → Option Difference
here a b = some (record { path = []; stated = a; computed = b })

abbrev pub or_later : Option Difference → Option Difference → Option Difference
or_later none later = later
or_later (some found) later = some found

abbrev pub same_bool : Bool → Bool → Bool
same_bool true b = b
same_bool false true = false
same_bool false false = true

-- The inner `walk`. The path is built on the way back. The sorted union of two ascending lists of keys
-- is their merge; at a key of one side only, and at an index of one side only, the walk stops.
unfoldable mutual
  pub walk : Value → Value → Option Difference
  walk (object left) (object right) = walk_fields left right
  walk (array left) (array right) = walk_items 0 left right
  walk null null = none
  walk (boolean a) (boolean b) = if same_bool a b then none else here (boolean a) (boolean b)
  walk (number a) (number b) = if same_text a b then none else here (number a) (number b)
  walk (text a) (text b) = if same_text a b then none else here (text a) (text b)
  walk a b = here a b

  pub walk_fields : Fields → Fields → Option Difference
  walk_fields end end = none
  walk_fields end (field j w gs) = under (key j) (here null w)
  walk_fields (field k v fs) end = under (key k) (here v null)
  walk_fields (field k v fs) (field j w gs) =
      let first = walk v w in
      let rest = walk_fields fs gs in
      elim (compare k j) [
        | Ordering.lt ↦ under (key k) (here v null)
        | Ordering.gt ↦ under (key j) (here null w)
        | Ordering.eq ↦ or_later (under (key k) first) rest
      ]

  pub walk_items : ℕ → Items → Items → Option Difference
  walk_items i nil nil = none
  walk_items i nil (cons w ws) = under (index i) (here null w)
  walk_items i (cons v vs) nil = under (index i) (here v null)
  walk_items i (cons v vs) (cons w ws) =
      let rest = walk_items (suc i) vs ws in or_later (under (index i) (walk v w)) rest

unfoldable pub first_difference : Value → Value → Option Difference
unfolding walk
first_difference a b = walk a b
