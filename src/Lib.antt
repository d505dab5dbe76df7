-- ===== src/Lib.antt =====
-- Verification of the Atheme contrib modules.
--
-- The repository is a set of modules that atheme, the IRC services, loads: each file under src/ adds
-- commands, hooks and handlers of database rows. A module keeps a little state of its own and calls
-- atheme and libmowgli for all else. The modules do not call one another.
--
-- Prelude: the shared names, tests and lists over native numbers, integers.
-- Services: C strings and the C library's functions on them (Text), loops over mowgli_list_t (Keyed),
--   lists of named entries as several modules keep them (Registry), the rows of the services database
--   (Database), metadata (Metadata), strtok() (Tokens), decimal numbers (Numbers), the
--   entries that ADD and DEL leave (Lookup), and concrete values of these parameters (Fixtures).
-- Defcon: src/os_defcon.c. Joinmon: src/os_joinmon.c. Badwords: src/cs_badwords.c. Dnsbl: src/dnsbl.c.
-- Announce: src/ircd_announceserv.c. Klinechan: src/os_klinechan.c. SaslBlacklist:
-- src/sasl_blacklist.c. Ajoin: src/ns_ajoin.c. UpDown: src/cs_updown.c. AkillNickList:
-- src/os_akillnicklist.c. Goodmail: src/ns_goodmail.c.
-- VhostOnReg: src/gen_vhostonreg.c. SaveChanmodes: src/os_savechanmodes.c. Userinfo: src/cs_userinfo.c.
-- Loveserv: src/ircd_loveserv.c. Fsend: src/ms_fsend.c.
-- Trace: src/os_trace.c; the actions are in Trace/Actions and the command is in Trace/Run.
-- Wumpus: src/wumpus.c; its maze is in Wumpus/Maze, its commands are in Wumpus/Service, and
--   Wumpus/Sound is about the null pointers and room numbers that the code follows without a test.
--
-- Conventions. A handler is a function from its state and parameters to the new state and the list
-- of the calls that it makes (replies, log lines, modes, k-lines, timers), in order; the fixed
-- texts of replies stand for themselves as constructors, with the values that they show. A chain of
-- strcasecmp() tests on a command word is a function into an enumeration, `verb_of`. A
-- mowgli_list_t is the sequence of its data from head to tail. Atheme's own functions (irccasecmp,
-- match, metadata_find, svsignore_add, db_sread_word and the like), libmowgli's Patricia trees and
-- the hook's data are parameters, with what is documented of them as named laws in records
-- (Casemap, Metadata, Svsignores, Backend, Patricia). CURRTIME and the handle that a new timer gets
-- are arguments. Numbers that the code keeps in an int or a time_t, or reads
-- with sscanf(), are not bounded. Registration of
-- commands and hooks in mod_init and mod_deinit is not modelled.
--
-- Fuel bounds four loops: the digits that are printed of a number, for which the number and one more
-- is enough; the criteria of TRACE, for which one more than the length of the parameters is
-- enough; the lines of the file of channel modes, for which one more than its bytes is enough; and
-- the search for an exit in build_maze(), which rand() may prolong without end, and for which as many
-- rounds are enough as rand() takes to give a fit number. A start that runs out of that fuel is
-- no step of the game.
mod Prelude
pub mod Services
pub mod Defcon
pub mod Joinmon
pub mod Badwords
pub mod Dnsbl
pub mod Wumpus
pub mod Trace
pub mod Announce
pub mod Ajoin
pub mod Goodmail
pub mod UpDown
pub mod AkillNickList
pub mod Klinechan
pub mod SaslBlacklist
pub mod VhostOnReg
pub mod SaveChanmodes
pub mod Userinfo
pub mod Fsend
pub mod Loveserv
