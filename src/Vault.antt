-- ===== src/Vault.antt =====
-- The accrual formulas of the vault targets: cli/src/{susde,sky,usdy,maple}.rs, over the wide
-- arithmetic of `Wide`. Each target has a module of definitions and one of theorems.
pub mod Ray
pub mod Susde
pub mod Sky
pub mod Usdy
pub mod Maple
mod Tests
