-- ===== src/Lib.antt =====
-- binfmt-support: the registry of interpreters for binary formats, and the program that the
-- Linux kernel runs to choose among several of them.
--
-- The programs. update-binfmts (src/update-binfmts.c) keeps one file per format in an
-- administrative directory and registers formats with the kernel through the files of
-- binfmt_misc. run-detectors (src/run-detectors.c) is what the kernel starts for a format that
-- has a detector or shares its magic with another; it reads the same directory, repeats the
-- match of the kernel, runs the detectors and becomes the first interpreter that it can execute.
-- Both use src/format.c, src/find.c, src/error.c and src/paths.c; update-binfmts keeps formats
-- and named values in the hash of src/kvhash.c.
--
-- The model. A `char *` string is the list of its bytes, `Bytes`; a pointer that may be null is
-- an `Option`. A step of a program is an `Action`: a function of the machine that is done, exits
-- with a status, or crashes (a null pointer is read, an assertion fails, memory is read out of
-- bounds), and gives the machine behind it in each case. The machine is the system, the table of
-- formats, and what was printed on the two streams. The operating system (`Os`) and the hash
-- table of gnulib (`HashLib`) are parameters; what is relied on is in `FilesWork` and
-- `ReplacingWorks` (of a file on a disk, and one that takes its place), `IsApart` (of a file that
-- the register and status files of binfmt_misc, modprobe and mount leave alone), `Registers` (a
-- line that the kernel takes makes an entry) and `IsLawful`. `Os.Memory`, `KvHash.Assoc` and the
-- kernel of `Tests.Enabling`, whose register and status files do not read back, are instances.
--
-- The files, and the code they are about:
--   Prelude       shared names, C strings, <ctype.h> in the C locale
--   Action        the steps above, rules for what they keep, ensure and return
--   Os            the calls of the system; Os/Memory a system in memory
--   Error         src/error.c: warning, warning_err, quit, quit_err
--   KvHash        src/kvhash.c: kvhash_insert and the others by their names
--   Paths         src/paths.c
--   Argp          the rows of the tables of options that both programs hand to argp_parse
--   Format        src/format.c: Lines and Fields and Load for binfmt_load, New for binfmt_new,
--                 Write for binfmt_write; binfmt_print and binfmt_equals in Format itself
--   Find          src/find.c: Hex for expand_hex, Number for atoi, Candidates for
--                 load_all_formats, Matching and Interpreters for find_interpreters
--   RunDetectors  src/run-detectors.c
--   Update        src/update-binfmts.c: Base for its globals and helpers, Packaged for
--                 get_import, Kernel for binfmt_misc, Database for load_format, a file for each
--                 action (Enable, Disable, Install, Remove, Import, Display), Options for
--                 parse_opt and the table of options, Main for main
--   Tests         runs on fixed inputs
-- An action with an optional name is two functions, `..._name` and `..._all`, under the name of
-- the C function. A result 1 is `true`, a result 0 `false`. The modules below a file hold what is
-- proved about it: those named Dry what --test leaves alone, Usable that no null pointer of the
-- table is read, Files and Reads what a step leaves on the disk, Returns that it comes back.
--
-- Numbers. `int` has 32 bits, `long` and `size_t` 64; offsets are the `size_t` that C makes of
-- the `int`, and sums are taken modulo 2 ^ 64. Everything recurs on its input, so no function
-- has fuel.
--
-- What is not modelled. Storage: copies and releases, and running out of memory but for the one
-- allocation whose size the input sets. argp_parse itself: the calls of parse_opt are the input, and
-- of the tables of options the texts are kept and the layout of --help is not.
-- Reading a file gives all of it at once, and nothing else changes files between two calls. A
-- directory is the list of names that readdir gives. The loops over the hash table run over the
-- entries that are there when they begin. The text before and behind the options in --help, and
-- --version. gnulib, the init scripts, the build and the test suite.
pub mod Prelude
pub mod Action
pub mod Os
pub mod Error
pub mod KvHash
pub mod Paths
pub mod Argp
pub mod Format
pub mod Find
pub mod RunDetectors
pub mod Update
pub mod Tests
