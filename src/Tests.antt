-- ===== src/Tests.antt =====
-- The theorems at concrete inputs, and test runs of the models.
mod Access
mod Acl
mod Configs
mod Lines
mod Names
mod Packages
mod Traffic
mod Transfer
