-- ===== src/Wide/Tests.antt =====
-- The cases of the tests of wide.rs, and the theorems at an input.
use crossfoot.Base.{ℕ, ◌≡◌, ◌*◌, ◌+◌, refl, none, some, arith, u128_max}
use crossfoot.Wide.{mul_div_floor, mul_add_div_floor, mul_full, div_256, div_loop}
use crossfoot.Wide.Floor.{floor, mul_div_floor-floor, mul_add_div_floor-floor}

run : Unit {0}
unfolding mul_div_floor mul_add_div_floor mul_full div_256 div_loop
run = tt

abbrev assets : ℕ
assets = 81769497488003849675143

abbrev supply : ℕ
supply = 80027751992300676663517

abbrev one_ether : ℕ
one_ether = 1000000000000000000

price_case : mul_div_floor assets one_ether supply ≡ some 1021764268673581424
unfolding run
price_case = refl

maximum : mul_div_floor u128_max u128_max u128_max ≡ some u128_max
unfolding run
maximum = refl

too_large :
    mul_div_floor 79218052391791520434156712630519509118 51002711797876073028924562290430617479
      1006117994675185531230227297319
    ≡ none
unfolding run
too_large = refl

half_up : mul_add_div_floor 7 7 1 10 ≡ some 5
unfolding run
half_up = refl

mul_div_floor-floor_example :
    mul_div_floor assets one_ether supply ≡ floor (assets * one_ether) supply
mul_div_floor-floor_example =
    mul_div_floor-floor assets one_ether supply (omega arith) (omega arith) (omega arith)

mul_add_div_floor-floor_example :
    mul_add_div_floor assets assets 5 one_ether ≡ floor (assets * assets + 5) one_ether
mul_add_div_floor-floor_example =
    mul_add_div_floor-floor assets assets 5 one_ether (omega arith) (omega arith) (omega arith)
      (omega arith)
