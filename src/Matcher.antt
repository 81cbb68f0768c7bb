-- ===== src/Matcher.antt =====
-- Literal search, of src/util.c: the skip tables of Boyer and Moore, and the search by them.
pub mod Occurrence
pub mod Tables
pub mod AlphaSkip
pub mod FindSkip
pub mod BoyerMoore
pub mod HashTable
pub mod Hash
pub mod Agree
mod Examples
