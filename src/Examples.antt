-- ===== src/Examples.antt =====
-- Concrete runs of the modelled code, to which the theorems apply.
mod Transactions
mod Versions
mod Stores
mod Texts
mod Logs
mod Trees
mod Redos
mod Checks
mod Uniques
