-- ===== src/Services.antt =====
-- What the modules share: C strings and the calls of the C library on them, the fault codes of
-- atheme's command replies, and the loops over a mowgli_list_t that look an entry up by its name.
pub mod Text
pub mod Tokens
pub mod Numbers
pub mod Keyed
pub mod Registry
pub mod Lookup
pub mod Database
pub mod Metadata
pub mod Fixtures

-- The second argument of command_fail().
pub data Fault : Type 0 where
  needmoreparams badparams nosuch_source nosuch_target nochange noprivs : Fault
