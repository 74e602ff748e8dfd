-- ===== src/Lib.antt =====
-- MineOS, a virtual operating system in a terminal, written in C on a static array of 10 MB.
-- The program: libs/math.c (arithmetic and bounds), libs/string.c (C strings), libs/memory.c (the
-- array VIRTUAL_RAM and a first-fit allocator on its data region), libs/screen.c and
-- libs/keyboard.c (the terminal), core/fs.c (inodes in VIRTUAL_RAM, contents in allocated blocks),
-- core/scheduler.c (a process table in VIRTUAL_RAM), core/commands.c (the commands) and
-- core/shell.c (the loop: read a line, tokenize, dispatch, tick); main.c boots them in order.
--
-- Base          shared names, tests, lists and integers.
-- Math          libs/math.c. A C int is an integer; results wrap round to 32 bits.
-- Bytes         C objects as functions from index to byte; an int is 4 bytes, the lowest first.
-- Machine       the global variables, and the output as a list of pieces.
-- Screen        libs/screen.c, as what it appends to the output; Screen.Banner is the boot banner.
-- Keyboard      libs/keyboard.c: read_line over the list of the characters that come in, and the flag
--               of the two mode functions; Keyboard.Modes has those and the functions for single
--               characters over a terminal, which is a parameter (Terminal).
-- Text          libs/string.c; Text.Strings says which C string an array holds at an index.
-- Memory        libs/memory.h (Memory.Layout) and libs/memory.c; Memory.Chain says for which list
--               of blocks the headers in VIRTUAL_RAM stand, and Memory.FirstFit is the allocator on
--               such a list, which the code implements.
-- Scheduler     core/scheduler.c; get_process, scheduler_spawn and so on keep their names.
-- Fs            core/fs.h (Fs.Layout) and core/fs.c: lookup, fs_create and fs_init in Fs, fs_delete,
--               fs_write and fs_read in Fs.Files, fs_list and fs_get_path in Fs.Paths. An inode is
--               the address of its 128 bytes, or none for NULL; contents are blocks of Memory.
-- Commands      core/commands.c: the small commands in Commands, those on files in Commands.Files,
--               save and load in Commands.Image, the dispatcher in Commands.Dispatch. The file
--               functions of <stdio.h> are the parameter Stdio, and mineos.img is a field of Machine.
-- Shell         core/shell.c: a session is the machine and the variables of shell_run, a round takes
--               a line of the keys that are left; boot and main are those of main.c.
-- System        what ties the parts together: the invariant of the inodes and their contents
--               (IsSystem) with a module for each operation that changes them, what a client may
--               rely on for the texts that the inodes hold (System.Contract), and the rounds of
--               the shell as a step relation (System.Session.Reaches).
--
-- Bounds and fuel. A walk along the chain of blocks has 10,468,288 rounds, the size of the data
-- region: every block takes more than 12 bytes, so a well-formed chain is shorter, and the lemmas
-- on the walks hold for any fuel above the number of blocks. A loop that looks for the end of a
-- string has 10,485,760 rounds, more than any object has bytes. A loop over the children of a
-- directory has 17 rounds and the walk to the root 129, one more than a directory has children and
-- than there are inodes. Counted loops recur on the rounds left. An index of a loop that counts up
-- from 0 to such a bound is a plain number. The loop of the shell has one round more than there
-- are keys, for every round takes an Enter.
--
-- Not modelled: flushing, the termios calls themselves (a parameter of Keyboard.Modes, with what POSIX
-- says of them as a hypothesis), and the messages that my_div and my_mod print for a zero divisor.
-- The system takes the characters that read_char returns as a list. A token is never
-- NULL: my_tokenize stores none. A local array has no end in the model: the theorems on single
-- functions say which indices are written, and those on command lines and on the shell take as a
-- hypothesis that `tokens`, `path`, `content` and `buf` have room (Commands.Fits,
-- System.Session.IsPlain), or leave out the lines that could overrun them (Shell.Exits.IsTame). A
-- walk that runs out of its rounds returns what it has, where the code would go on for ever; the
-- theorems stay where that does not happen, on a well-formed tree or heap. A type of 4-byte ints in
-- little-endian order and no padding is assumed. The theorems on rounds of the shell leave out `load`, which replaces the RAM without the
-- count of the ids, and `halt`, which wipes it and ends the shell.
pub mod Base
pub mod Bytes
pub mod Commands
pub mod Fs
pub mod Keyboard
pub mod Machine
pub mod Math
pub mod Memory
pub mod Scheduler
pub mod Screen
pub mod Shell
pub mod System
pub mod Text
