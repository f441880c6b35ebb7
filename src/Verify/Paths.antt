-- ===== src/Verify/Paths.antt =====
-- verify.rs, `first_difference`: it finds nothing exactly between equal values, and what it finds is a
-- difference at the path that it names.
use Prim.Native.String.{String, compare}
use Prim.Native.Nat.{Ordering}
use package.text.Mathlib.TextEquality.{path_by_compare}
use package.text.Mathlib.TextPositions.{compare_refl}
use mathlib.Core.Path.{subst}
use crossfoot.Base.{
  ℕ, suc, ◌≡◌, ◌↔◌, ◌⊎◌, inl, inr, refl, sym, ap, ◌∙◌, arith, true, false, Option, none, some,
  same_text, same_text_iff,
}
use crossfoot.Verify.{
  Value, null, boolean, number, text, array, object, Items, nil, cons, Fields, end, field, Step,
  key, index, Difference, under, here, or_later, walk, walk_fields, walk_items, first_difference,
}

pub same_text_self : (s : String) → same_text s s ≡ true
same_text_self s = (same_text_iff s s).1 refl

pub order_cases : (o : Ordering) → (o ≡ Ordering.lt) ⊎ ((o ≡ Ordering.eq) ⊎ (o ≡ Ordering.gt))
order_cases Ordering.lt = inl refl
order_cases Ordering.eq = inr (inl refl)
order_cases Ordering.gt = inr (inr refl)

abbrev pub by_order :
    Ordering → (k j : String) (v w : Value) (first rest : Option Difference) → Option Difference
by_order Ordering.lt k j v w first rest = under (key k) (here v null)
by_order Ordering.gt k j v w first rest = under (key j) (here null w)
by_order Ordering.eq k j v w first rest = or_later (under (key k) first) rest

-- The walk over two fields, by the order of their keys.
walk_fields-by_order :
    (k j : String) (v w : Value) (fs gs : Fields)
    → walk_fields (field k v fs) (field j w gs)
      ≡ by_order (compare k j) k j v w (walk v w) (walk_fields fs gs)
unfolding walk
walk_fields-by_order k j v w fs gs = ground arith

pub at_order :
    {o : Ordering} (k j : String) (v w : Value) (fs gs : Fields)
    → compare k j ≡ o
    → walk_fields (field k v fs) (field j w gs) ≡ by_order o k j v w (walk v w) (walk_fields fs gs)
at_order k j v w fs gs e =
    walk_fields-by_order k j v w fs gs
    ∙ ap (λ (o : Ordering). by_order o k j v w (walk v w) (walk_fields fs gs)) e

mutual
  unfolding walk

  walk_self : (a : Value) → walk a a ≡ none
  walk_self null = refl
  walk_self (boolean true) = refl
  walk_self (boolean false) = refl
  walk_self (number a) = rw (same_text_self a) refl
  walk_self (text a) = rw (same_text_self a) refl
  walk_self (array xs) = walk_items_self 0 xs
  walk_self (object fs) = walk_fields_self fs

  walk_fields_self : (fs : Fields) → walk_fields fs fs ≡ none
  walk_fields_self end = refl
  walk_fields_self (field k v fs) =
      at_order k k v v fs fs (compare_refl k) ∙ rw (walk_self v) (walk_fields_self fs)

  walk_items_self : (i : ℕ) (xs : Items) → walk_items i xs xs ≡ none
  walk_items_self i nil = refl
  walk_items_self i (cons v vs) = rw (walk_self v) (walk_items_self (suc i) vs)

or_later-none : (a b : Option Difference) → or_later a b ≡ none → (a ≡ none) × (b ≡ none)
or_later-none none b h = (refl, h)
or_later-none (some d) b h = cc

under-none : (step : Step) (a : Option Difference) → under step a ≡ none → a ≡ none
under-none step none h = refl
under-none step (some d) h = cc

mutual
  unfolding walk

  walk-none : (a b : Value) → walk a b ≡ none → a ≡ b
  walk-none null null h = refl
  walk-none (boolean a) (boolean b) h = ap boolean (ground arith)
  walk-none (number a) (number b) h = ap number (ground (arith, same_text_iff a b))
  walk-none (text a) (text b) h = ap text (ground (arith, same_text_iff a b))
  walk-none (array xs) (array ys) h = ap array (walk_items-none 0 xs ys h)
  walk-none (object fs) (object gs) h = ap object (walk_fields-none fs gs h)
  walk-none a b h = cc

  walk_fields-none : (fs gs : Fields) → walk_fields fs gs ≡ none → fs ≡ gs
  walk_fields-none end end h = refl
  walk_fields-none end (field j w gs) h = cc
  walk_fields-none (field k v fs) end h = cc
  walk_fields-none (field k v fs) (field j w gs) h = elim (order_cases (compare k j)) [
    | inl below ↦ cc (at_order k j v w fs gs below, h)
    | inr (inl same) ↦
        let (first, rest) =
          or_later-none (under (key k) (walk v w)) (walk_fields fs gs)
            (sym (at_order k j v w fs gs same) ∙ h) in
        cc (
          path_by_compare k j same,
          walk-none v w (under-none _ _ first),
          walk_fields-none fs gs rest,
        )
    | inr (inr above) ↦ cc (at_order k j v w fs gs above, h)
  ]

  walk_items-none : (i : ℕ) (xs ys : Items) → walk_items i xs ys ≡ none → xs ≡ ys
  walk_items-none i nil nil h = refl
  walk_items-none i nil (cons w ws) h = cc
  walk_items-none i (cons v vs) nil h = cc
  walk_items-none i (cons v vs) (cons w ws) h =
      let (first, rest) = or_later-none (under (index i) (walk v w)) (walk_items (suc i) vs ws) h in
      cc (walk-none v w (under-none _ _ first), walk_items-none (suc i) vs ws rest)

-- The walk finds no difference exactly when the two values are equal.
pub first_difference-none_iff : (a b : Value) → (first_difference a b ≡ none) ↔ (a ≡ b)
unfolding first_difference
first_difference-none_iff a b =
    (λ h. walk-none a b h, λ e. subst (λ (c : Value). walk a c ≡ none) e (walk_self a))
