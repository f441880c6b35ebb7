-- ===== src/Verify/Locates.antt =====
-- verify.rs, `first_difference`: what it finds is a difference at the path that it names.
use Prim.Native.String.{String, compare}
use Prim.Native.String.compare.{nil-cons, cons-nil, cons-cons}
use Prim.Native.Nat.{Ordering}
use package.text.Mathlib.TextEquality.{path_by_compare}
use package.text.Mathlib.TextPositions.{compare_refl}
use mathlib.Core.Path.{subst}
use mathlib.Core.Option.{some-injective}
use crossfoot.Base.{
  ℕ, zero, suc, ◌+◌, ◌≡◌, ◌≢◌, inl, inr, refl, sym, ap, ◌∙◌, arith, Bool, true, false, Option, none,
  some, List, [], ◌∷◌, same_text, same_text_iff, if◌then◌else◌, and_then, Option-cases, Bool-cases,
}
use crossfoot.Verify.{
  Value, null, boolean, number, text, array, object, Items, nil, cons, Fields, end, field, Step,
  key, index, Difference, under, here, or_later, walk, walk_fields, walk_items, first_difference,
  same_bool,
}
use crossfoot.Verify.Paths.{order_cases, at_order, same_text_self}

-- A text before another is not after it.
compare-flip : (s t : String) → compare s t ≡ Ordering.lt → compare t s ≢ Ordering.lt
compare-flip String.[] String.[] h k = ground arith
compare-flip String.[] (String.◌∷◌ d t) h k = ground (arith, cons-nil d t)
compare-flip (String.◌∷◌ c s) String.[] h k = ground (arith, cons-nil c s)
compare-flip (String.◌∷◌ c s) (String.◌∷◌ d t) h k =
    ground (arith, cons-cons c d s t, cons-cons d c t s, compare-flip s t)

compare-turn : (s t : String) → compare s t ≡ Ordering.gt → compare t s ≡ Ordering.lt
compare-turn String.[] String.[] h = ground arith
compare-turn String.[] (String.◌∷◌ d t) h = ground (arith, nil-cons d t)
compare-turn (String.◌∷◌ c s) String.[] h = nil-cons c s
compare-turn (String.◌∷◌ c s) (String.◌∷◌ d t) h = ground (
  arith,
  cons-cons c d s t,
  cons-cons d c t s,
  compare-turn s t,
  path_by_compare s t,
  compare_refl s,
)

-- The value at a path.
abbrev pub field_at : String → Fields → Option Value
field_at k end = none
field_at k (field j v fs) = if same_text k j then some v else field_at k fs

abbrev pub item_at : ℕ → Items → Option Value
item_at n nil = none
item_at zero (cons v vs) = some v
item_at (suc n) (cons v vs) = item_at n vs

abbrev pub child : Step → Value → Option Value
child (key k) (object fs) = field_at k fs
child (index i) (array xs) = item_at i xs
child step v = none

abbrev pub value_at : List Step → Value → Option Value
value_at [] v = some v
value_at (step ∷ path) v = and_then (child step v) (value_at path)

-- The keys of every object ascend.
abbrev pub Above : String → Fields → Type 0
Above k end = Unit
Above k (field j v fs) = (compare k j ≡ Ordering.lt) × Above k fs

abbrev mutual
  pub IsOrdered : Value → Type 0
  IsOrdered (object fs) = AreOrdered fs
  IsOrdered (array xs) = AllOrdered xs
  IsOrdered v = Unit

  pub AreOrdered : Fields → Type 0
  AreOrdered end = Unit
  AreOrdered (field k v fs) = IsOrdered v × Above k fs × AreOrdered fs

  pub AllOrdered : Items → Type 0
  AllOrdered nil = Unit
  AllOrdered (cons v vs) = IsOrdered v × AllOrdered vs

abbrev pub or_null : Option Value → Value
or_null none = null
or_null (some v) = v

-- A difference reports what stands at its path on the two sides, null where nothing does, and these
-- differ.
abbrev pub Locates : Difference → (left right : Option Value) → Type 0
Locates d left right = (or_null left ≡ d.stated) × (or_null right ≡ d.computed) × (left ≢ right)

-- A key that stands before another is none of the keys above that.
absent :
    (k j : String) (gs : Fields) → compare k j ≡ Ordering.lt → Above j gs → field_at k gs ≡ none
absent k j end below above = refl
absent k j (field i w gs) below above = elim (Bool-cases (same_text k i)) [
  | inl same ↦ absurd (
      compare-flip k j below (
        subst (λ (i : String). compare j i ≡ Ordering.lt) (sym ((same_text_iff k i).0 same))
          above.0))
  | inr apart ↦ rw apart (absent k j gs below above.1)
]

below-apart : (k j : String) → compare k j ≡ Ordering.lt → same_text j k ≡ false
below-apart k j below = elim (Bool-cases (same_text j k)) [
  | inl same ↦ cc (
    subst (λ (i : String). compare k i ≡ Ordering.lt) ((same_text_iff j k).0 same) below,
    compare_refl k,
  )
  | inr apart ↦ apart
]

absent_field :
    (k j : String) (w : Value) (gs : Fields)
    → compare k j ≡ Ordering.lt
    → Above j gs
    → field_at k (field j w gs) ≡ none
absent_field k j w gs below above =
    let apart : same_text k j ≡ false = ground arith in rw apart (absent k j gs below above)

-- Two leaves that differ.
here-Locates :
    (a b : Value) (d : Difference)
    → a ≢ b
    → here a b ≡ some d
    → Locates d (value_at d.path a) (value_at d.path b)
here-Locates a b d apart h =
    subst (λ (d : Difference). Locates d (value_at d.path a) (value_at d.path b))
      (some-injective _ _ h) (refl, refl, λ e. apart (some-injective _ _ e))

leaf-Locates :
    (same : Bool) (a b : Value) (d : Difference)
    → (same ≡ false → a ≢ b)
    → (if same then none else here a b) ≡ some d
    → Locates d (value_at d.path a) (value_at d.path b)
leaf-Locates true a b d apart h = cc
leaf-Locates false a b d apart h = here-Locates a b d (apart refl) h

same_text-apart : (s t : String) → same_text s t ≡ false → s ≢ t
same_text-apart s t h e = cc ((same_text_iff s t).1 e, h)

-- What the walk over two lists of fields finds.
record Found (fs gs : Fields) (d : Difference) : Type 0 where
  name : String
  rest : List Step
  path : d.path ≡ key name ∷ rest
  located :
      Locates d
        (and_then (field_at name fs) (value_at rest))
        (and_then (field_at name gs) (value_at rest))
  above : (k : String) → Above k fs → Above k gs → compare k name ≡ Ordering.lt

only_left :
    (k : String) (v : Value) (fs gs : Fields) (d : Difference)
    → field_at k gs ≡ none
    → under (key k) (here v null) ≡ some d
    → Found (field k v fs) gs d
only_left k v fs gs d gone e = subst (Found (field k v fs) gs) (some-injective _ _ e) (record {
  name = k;
  rest = [];
  path = refl;
  located = rw (same_text_self k, gone) (refl, refl, λ h. cc);
  above = λ i left right. left.0;
})

only_right :
    (j : String) (w : Value) (fs gs : Fields) (d : Difference)
    → field_at j fs ≡ none
    → under (key j) (here null w) ≡ some d
    → Found fs (field j w gs) d
only_right j w fs gs d gone e = subst (Found fs (field j w gs)) (some-injective _ _ e) (record {
  name = j;
  rest = [];
  path = refl;
  located = rw (same_text_self j, gone) (refl, refl, λ h. cc);
  above = λ i left right. right.0;
})

-- A difference below a key that both sides have.
below_key :
    (k j : String) (v w : Value) (fs gs : Fields) (found d : Difference)
    → k ≡ j
    → Locates found (value_at found.path v) (value_at found.path w)
    → under (key k) (some found) ≡ some d
    → Found (field k v fs) (field j w gs) d
below_key k j v w fs gs found d same located e =
    subst (Found (field k v fs) (field j w gs)) (some-injective _ _ e) (record {
      name = k;
      rest = found.path;
      path = refl;
      located = rw (same_text_self k, (same_text_iff k j).1 same) located;
      above = λ i left right. left.0;
    })

-- A difference after a key that both sides have.
after_key :
    (k j : String) (v w : Value) (fs gs : Fields) (d : Difference)
    → k ≡ j
    → Above k fs
    → Above j gs
    → Found fs gs d
    → Found (field k v fs) (field j w gs) d
after_key k j v w fs gs d same left right found =
    let apart : same_text found.name k ≡ false =
      below-apart k found.name
        (found.above k left (subst (λ (i : String). Above i gs) (sym same) right)) in
    record {
      name = found.name;
      rest = found.rest;
      path = found.path;
      located =
          rw (apart, subst (λ (i : String). same_text found.name i ≡ false) same apart)
            found.located;
      above = λ i l r. found.above i l.1 r.1;
    }

-- What the walk over two lists of items finds, whose first item has the number `start`.
record FoundItem (start : ℕ) (xs ys : Items) (d : Difference) : Type 0 where
  offset : ℕ
  rest : List Step
  path : d.path ≡ index (start + offset) ∷ rest
  located :
      Locates d
        (and_then (item_at offset xs) (value_at rest))
        (and_then (item_at offset ys) (value_at rest))

item_here :
    (i : ℕ) (xs ys : Items) (found d : Difference)
    → Locates found
        (and_then (item_at 0 xs) (value_at found.path))
        (and_then (item_at 0 ys) (value_at found.path))
    → under (index i) (some found) ≡ some d
    → FoundItem i xs ys d
item_here i xs ys found d located e = subst (FoundItem i xs ys) (some-injective _ _ e) (record {
  offset = 0;
  rest = found.path;
  path = ap (λ (n : ℕ). index n ∷ found.path) (omega arith);
  located = located;
})

item_after :
    (i : ℕ) (v w : Value) (vs ws : Items) (d : Difference)
    → FoundItem (suc i) vs ws d
    → FoundItem i (cons v vs) (cons w ws) d
item_after i v w vs ws d found = record {
  offset = suc found.offset;
  rest = found.rest;
  path = found.path ∙ ap (λ (n : ℕ). index n ∷ found.rest) (omega arith);
  located = found.located;
}

mutual
  unfolding walk

  walk-Locates :
      (a b : Value) (d : Difference)
      → IsOrdered a
      → IsOrdered b
      → walk a b ≡ some d
      → Locates d (value_at d.path a) (value_at d.path b)
  walk-Locates null null d p q h = cc
  walk-Locates (object fs) (object gs) d p q h =
      let found = walk_fields-Found fs gs d p q h in
      subst
        (λ (path : List Step). Locates d (value_at path (object fs)) (value_at path (object gs)))
        (sym found.path) found.located
  walk-Locates (array xs) (array ys) d p q h =
      let found = walk_items-Found 0 xs ys d p q h in
      let path = found.path ∙ ap (λ (n : ℕ). index n ∷ found.rest) (omega arith) in
      subst (λ (path : List Step). Locates d (value_at path (array xs)) (value_at path (array ys)))
        (sym path) found.located
  walk-Locates (boolean a) (boolean b) d p q h =
      leaf-Locates (same_bool a b) (boolean a) (boolean b) d (λ e k. ground arith) h
  walk-Locates (number a) (number b) d p q h =
      leaf-Locates (same_text a b) (number a) (number b) d (λ e k. same_text-apart a b e (cc)) h
  walk-Locates (text a) (text b) d p q h =
      leaf-Locates (same_text a b) (text a) (text b) d (λ e k. same_text-apart a b e (cc)) h
  walk-Locates a b d p q h = here-Locates a b d (λ e. cc) h

  walk_fields-Found :
      (fs gs : Fields) (d : Difference)
      → AreOrdered fs
      → AreOrdered gs
      → walk_fields fs gs ≡ some d
      → Found fs gs d
  walk_fields-Found end end d p q h = cc
  walk_fields-Found end (field j w gs) d p q h = only_right j w end gs d refl h
  walk_fields-Found (field k v fs) end d p q h = only_left k v fs end d refl h
  walk_fields-Found (field k v fs) (field j w gs) d p q h = elim (order_cases (compare k j)) [
    | inl below ↦
        only_left k v fs (field j w gs) d (absent_field k j w gs below q.1)
          (sym (at_order k j v w fs gs below) ∙ h)
    | inr (inl same) ↦
        let e = path_by_compare k j same in
        let stepped = sym (at_order k j v w fs gs same) ∙ h in
        elim (Option-cases (walk v w)) [
          | inr (found, first) ↦
              below_key k j v w fs gs found d e (walk-Locates v w found p.0 q.0 first) (
                ap (λ (o : Option Difference). or_later (under (key k) o) (walk_fields fs gs))
                  (sym first)
                ∙ stepped)
          | inl first ↦ after_key k j v w fs gs d e p.1 q.1 (
              walk_fields-Found fs gs d p.2 q.2 (
                ap (λ (o : Option Difference). or_later (under (key k) o) (walk_fields fs gs))
                  (sym first)
                ∙ stepped))
        ]
    | inr (inr above) ↦
        only_right j w (field k v fs) gs d (absent_field j k v fs (compare-turn k j above) p.1)
          (sym (at_order k j v w fs gs above) ∙ h)
  ]

  walk_items-Found :
      (i : ℕ) (xs ys : Items) (d : Difference)
      → AllOrdered xs
      → AllOrdered ys
      → walk_items i xs ys ≡ some d
      → FoundItem i xs ys d
  walk_items-Found i nil nil d p q h = cc
  walk_items-Found i nil (cons w ws) d p q h =
      item_here i nil (cons w ws) _ d (refl, refl, λ e. cc) h
  walk_items-Found i (cons v vs) nil d p q h =
      item_here i (cons v vs) nil _ d (refl, refl, λ e. cc) h
  walk_items-Found i (cons v vs) (cons w ws) d p q h = elim (Option-cases (walk v w)) [
    | inr (found, first) ↦
        item_here i (cons v vs) (cons w ws) found d (walk-Locates v w found p.0 q.0 first) (
          ap (λ (o : Option Difference). or_later (under (index i) o) (walk_items (suc i) vs ws))
            (sym first)
          ∙ h)
    | inl first ↦ item_after i v w vs ws d (
        walk_items-Found (suc i) vs ws d p.1 q.1 (
          ap (λ (o : Option Difference). or_later (under (index i) o) (walk_items (suc i) vs ws))
            (sym first)
          ∙ h))
  ]

-- In values whose objects have ascending keys, a difference that is found is one: the two sides differ
-- at its path, and it reports what stands there, null where nothing does.
pub first_difference-Locates :
    (a b : Value) (d : Difference)
    → IsOrdered a
    → IsOrdered b
    → first_difference a b ≡ some d
    → Locates d (value_at d.path a) (value_at d.path b)
unfolding first_difference
first_difference-Locates = walk-Locates
