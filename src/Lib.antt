-- ===== src/Lib.antt =====
-- A verification library for iocsh_utilities, commands for the shell of EPICS IOCs written in C.
-- Each command is a function in a C file at the root of the repository, registered with iocsh. The
-- commands share little: ifEnvSet.c calls epicsEnvUnset.c, and most of them walk or change data of
-- EPICS base, such as menus, hooks, threads and records.
--
-- Files. `Base` holds what all share: tests on numbers, texts as lists of bytes before the NUL, and
-- signed numbers. `Clib` models the parts of the C library that the commands call, `strtol`,
-- `strtoull` and the classes of bytes, for 64-bit `long`.
--   Glob           ifEnvSet.c, `match`: pointers are the rests of their texts, NULL is `none`.
--   IfEnvSet       ifEnvSet.c, `ifEnvSet`: operators as a record of flags, the reply with the new
--                  environment. `epicsEnvSet` is a parameter.
--   Environ        epicsEnvUnset.c and winunixconv.c on an environment that is a list of pairs.
--   Threads        threads.c: `Affinity` prints and parses lists of processors, with `sscanf` as
--                  functions on the rest of the text; `Priority` reads priorities, with the levels
--                  of EPICS base as a parameter; `Commands` reads and sets the affinity of a thread,
--                  with the calls of pthread as the parameter `Pthreads`.
--   Disctools      disctools.c: `Dir` is `dirFunc` with the columns in `Grid`, `Remove` is `rmFunc`
--                  and `rmPriv`, `Copy` is `cpFunc` and `mvFunc`, `Long` is `llOut`, `Mode` is the
--                  rest. What the file system answers is a parameter of each.
--   AfterInit      afterInit.c: the linked list of commands in a heap of items with `cmdlast` as a
--                  slot that is written through, the table of hook names (`Hooks`), the command
--                  line in its buffer (`CommandText`) and the functions for vxWorks (`Vx`). The
--                  numbers of the hooks are a parameter.
--   Exec, Eval     exec.c `execFunc` and eval.c `evalFunc`: command lines in buffers of 1024 bytes;
--                  `system` and the output of a command are parameters. `Exec.Expand` is `expand` and
--                  `exec` for vxWorks, with the macro library of EPICS base as the parameter `Macros`.
--   AddScan        addScan.c: `addScan` and `rmScan` on a menu as a list of choices; numbers of type
--                  `double` are the parameter `Rates`, with its laws.
--   MenuConvert    updateMenuConvert.c on a menu and the names of the breakpoint tables.
--   Dbll           dbll.c `dbll`: pattern, filter of types and lines printed, for a database that is
--                  an argument; glob matching of EPICS base is a parameter.
--   Dbli           dbli.c and dbla.c: the loops of `dbNextMatchingInfo` over an entry of EPICS base, the
--                  parameter `Entry`, whose laws say where it stands (`Places`).
--   Cal            cal.c: the clients with their channels are an argument; `clientref` is a text of
--                  at most 99 bytes, or a write behind its end.
--   TermSig        termSig.c: the signal handlers, and the runs of `termSigHandler` as steps.
--   Boot           bootNotify.c: the command in its buffer; `rsh` is a parameter.
--   Output         listRecords.c and echo.c: which output gets what.
--   ArrayBytes     setMaxArrayBytes.c: the database is an argument, sizes on the net a parameter.
--   Lock           mlock.c; the calls of the system are the parameter `Memory`.
--   Ulimit         ulimit.c: the options and limits; the kernel is the parameter `System`.
-- The children of a component state what holds of it, and a child `Tests` applies the theorems to
-- concrete inputs and runs the definitions.
--
-- Bounds and fuel. The matcher runs on fuel for (length of text + 1) * (length of pattern + 1) + 1
-- rounds, the parser of affinity lists on one more round than the text has bytes; both are shown to be
-- enough. The walk of the init hook has as many rounds as there are items, enough for a list of
-- distinct items. `rmPriv` runs on fuel for its depth, which the length of a path bounds, and the loop
-- of `cpFunc` on a round for each 256 bytes and two. The loops of dbli.c run on a limit above the
-- number of record types, records and items, and the buffer of `expand` grows in as many rounds as the
-- expansion has bytes, and one.
--
-- Numbers wrap around where C's do: `unsigned int` in the lists of processors, `int` for priorities and
-- their differences (where C leaves the overflow of `diff++` undefined), 64 bits for limits. The setting
-- of setMaxArrayBytes.c is a number with a sign. Buffers are texts with the number of bytes written, and
-- a write behind their end is an outcome of its own.
--
-- Not modelled: registration with iocsh, output that only informs, most variants for Windows and for
-- old versions of EPICS, and failing allocations except where they are an argument. caFieldSize.c is
-- one call of a macro of EPICS base, and a parameter. glob.c is a copy of a function of EPICS base.
pub mod Base
pub mod Glob
pub mod Clib
pub mod Environ
pub mod IfEnvSet
pub mod Threads
pub mod AfterInit
pub mod Exec
pub mod Eval
pub mod MenuConvert
pub mod AddScan
pub mod Boot
pub mod Cal
pub mod Dbll
pub mod Dbli
pub mod TermSig
pub mod Output
pub mod Lock
pub mod Ulimit
pub mod ArrayBytes
pub mod Disctools
