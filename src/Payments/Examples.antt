-- ===== src/Payments/Examples.antt =====
-- The theorems on payments at concrete inputs, over the toy of the libraries of Rta/Examples.antt.
mod Codec
mod Votes
mod Sales
mod Letters
mod Details
