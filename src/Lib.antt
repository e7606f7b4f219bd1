-- ===== src/Lib.antt =====
-- The device-tree tools of darwin-vm, what they read, change and write, the relay of its input, the
-- serial console, the reader of crash data, the checkpoints with the two commands that make and
-- restore them, the carver of property lists and the follower of probe logs.
--
-- A device tree is a tree of nodes with properties and children, in Apple's flat encoding: two
-- counts, then the properties (a name field of 32 bytes, a length word whose high bit is a flag, the
-- value padded to a word), then the children. Three tools work on it, each with a reading of its
-- own, and the development has a part for each:
--   Passthrough   tools/re/power_passthrough_dt.py, which keeps every byte of a tree and appends one
--                 leaf under `arm-io`: Property, Node, parse_node, parse_tree, encode_node,
--                 add_provider, assert_output_contract, generate
--     .Edit       the leaf and its place; .Contract the checks on the output, and `generate`
--     .Lossless, .RoundTrip, .Leaf, .Update, .Generate   proofs; .Tests runs
--   Patch         tools/dt_patch.py, which sets and deletes properties at a path
--     .Codec      decode and encode; .Edit Node.get, set, delete, child, find, parse_value, and the
--                 two loops of main (`patch`)
--     .RoundTrip, .Laws, .Changed, .Placed, .Paths   proofs; .Tests runs
--   Fixup         dt_fixup.py, which makes a shipped tree bootable
--     .Dict       Python's dictionaries; .Tree ADTNode's lookups, and assignments at a path
--     .Codec      decode_prop, decode_node, parse_prop_entry, encode_node
--     .Compat     del_compat, fixup_spmi, drop_exclave_routes, fixup_darts
--     .Iops       fixup_iops; .Storage the file-system tables and the keybag
--     .Ans        tools/ans/dt_ans_fixup.py, a second pass after fixup_iops, and its proofs
--     .Sep        fixup_sep, fixup_aic, fixup_sptm, get_platform_name, get_soc_gen
--     .Main       fixup, fixup_development_activation and the body of main; .Options its arguments
--     .Codec.Numbers, .Codec.Values, .Compat.Strip, .Compat.Darts, .Iops.Regions, .Storage.Laws
--                 proofs; .Tests runs
-- Beside them stands
--   Relay         tools/input/relay.py, which hands touches to the guest one packet at a time: enqueue,
--                 and the loop of main as `round` and `run`, a round at a time
--     .Queue, .Flight   proofs; .Tests runs
--   Serial        tools/serial.py, the console on a socket: drain, wait_for_text, wait_for_markers,
--                 wait_for_prompt, send_command, send_command_batch
--     .Upload     remote_path_is_safe, upload with its checked and checked_batch
--     .Main       the four actions of main
--     .Transcript and .Waiting (the log), .Heard and .Markers (what a wait has heard), .Sent (what is
--     sent), .Upload.Parts, .Upload.Safe, .Upload.Steps, .Upload.Received, .Upload.Witness,
--     .Main.Script   proofs; Serial.Tests, .Upload.Tests and .Main.Tests run
--   Kcdata        tools/oskcdata.py, which searches memory dumps for kernel crash data: scan, walk,
--                 render, and the loop of main over a file
--     .Scan, .Walk, .Report   proofs; .Tests runs
--   Checkpoint    tools/checkpoint_common.py: qemu_input_files and replace_drive_file
--     .Argv       restore_argv; .Chain qcow2_backing_chain and verify_backing_chain, with proofs
--     .Procargs   what process_argv_env makes of a buffer of kern.procargs2 or of /proc, with proofs
--     .Texts      selected_cpu_index, parse_pc, serial_hex_clock_bounds, parse_migration_status, and the
--                 text that HMP.command returns; .Sptm sptm_panic_message
--     .Manifest   the manifest of a checkpoint and the files of the host, shared by the two commands
--     .Session    a session with the monitor: its trace, its replies, the ways in which a command fails
--     .Drives, .Consoles, .Kept, .Monitored, .Restored, .Texts.Digits, .Session.Adding,
--     .Session.Leaving   proofs; .Tests and .Texts.Tests run
--   Create        tools/create_checkpoint.py: `owns` the checks before anything is done
--     .Given      the guest, the host's files and the manifest that is made of them
--     .Run        the steps from the new directory to the manifest, as `create`
--     .Run.Order, .Run.Refused, .Run.Trace, .Run.Described, .Run.Heard,
--     .Run.Created   proofs; .Tests runs
--   Restore       tools/restore_checkpoint.py: parse_model_env_overrides, checkpoint_source_cpu and the
--                 checks of main before QEMU is started, as `preflight`
--     .Launch     the arguments and the environment; .Qmp activate_paused_disks
--     .Panic      the search for a panic while the guest is observed, and the readings of the logs
--     .Child      the child, what is wanted of it, and the report
--     .Run        the try statement of main and its handler, as `restore`
--     .Main       the checks, the launch and the session as one
--     .Left, .OfCreated (both commands together), .Environment, .Run.Steps, .Run.Safe, .Run.Verified,
--     .Run.Guarded   proofs; .Tests runs
--   Carve         tools/bplist_carve.py, which searches memory dumps for property lists: try_end, carve
--                 and the loop of main
--     .Found, .Rounds   proofs; .Tests runs
--   Watch         tools/re/probe_watch.py: the follower of a log; .Lines proofs; .Tests runs
-- Below them stand Tree (the shape that the tools share), Bytes (words, padding, NUL-terminated
-- fields; Bytes.Utf8 the three decoders and the encoder), Text (the methods of `str`), PyInt
-- (`int`, `bytes.fromhex`, `hex`) and Prelude (Result, lists, equality).
--
-- How the program is read. `bytes` and `str` are lists of numbers, one for a byte or a code point.
-- A buffer with an offset is the bytes from that offset on, and the offset that a function returns
-- is the rest. An exception is `raise` with a constructor of the tool's Error; once it is raised the
-- program stops, so the state that it leaves is not kept. A tree that the program mutates through an
-- object reference is a tree that is returned changed at the path that the reference was found by.
-- The globals of dt_fixup.py are the record Config.
--
-- Fuel. The parsers recurse on fuel, one unit a level, and start with the length of the input and
-- one: a level takes eight bytes at least, so the fuel cannot run out before the input does. The
-- round-trip theorems run the parsers with the fuel that the tools' models hand out. `scan` of
-- oskcdata.py has a unit for each block and starts with the length of the file and one, as a block has
-- a byte at least; the limit of 512 items of `walk` is the source's. The parts of an upload are cut on
-- the length of the encoded file. The loop of bplist_carve.py starts with the length of the dump and
-- one, as a round passes a byte.
--
-- The guest's side of the serial console is a script of polls: for each round of a waiting loop the
-- clock, and what `recv` does. A loop whose script ends stops as at its deadline. Link is what a run
-- leaves: the chunks delivered, the bytes sent, the log and the lines printed. An exit keeps it.
--
-- The monitor of QEMU is a script of replies, one for each command; where it ends the connection fails.
-- What a command does to the guest, the disk and the child is the trace of its session, which a failure
-- keeps. The loops of the two checkpoint commands run over a list of rounds, each with the clock and
-- whether the process is there: a list that ends stands for a deadline that passes. The regular
-- expressions for the monitor's texts and the logs are written out, for ASCII digits, letters and white
-- space. create_checkpoint.py reads the files as they are when the guest has ended, with the two modes
-- that it sets; the outcomes of `ps`, of `qemu-img check`, and of the waits for a process are given.
--
-- Not modelled. In the relay: the match of an acknowledgement in the bytes of the UART, the text of a
-- packet and the choice of the script by the arguments; a round has one reading of the clock. In the
-- console: `connect`, the pauses, and the regular expressions, the files of the host and its `cksum`,
-- which are parameters. In the reader of crash data: the names of the items and the layout of a report,
-- the option --at and the listing of directories. In the checkpoints: the sockets, the
-- pauses, the copies of evidence beyond the names of their files, the measures of memory and of time,
-- atomic_json, the pid file and the creation of the child disk by qemu-img; Path.resolve, the files,
-- their hash, the marker's regular expression and the answers of qemu-img are parameters, and the texts
-- of a process stay bytes. tools/derive_warm_manifest.py is left out. In the carver: what plistlib
-- makes of bytes, whether that is None and the test of --grep are parameters. In the watcher: the
-- events of callbacks and their deadlines. In all: opening, reading and writing files, the lines
-- printed, argparse, the comparison of the two paths in `main` of power_passthrough_dt.py, the error of
-- encoding a lone surrogate, and Python's limit on recursion. `int` and `\d` know the ASCII digits
-- and the ASCII white space. The texts of the messages of exceptions are left out.
pub mod Prelude
pub mod Bytes
pub mod Tree
pub mod PyInt
pub mod Text
pub mod Passthrough
pub mod Patch
pub mod Fixup
pub mod Relay
pub mod Kcdata
pub mod Serial
pub mod Checkpoint
pub mod Carve
pub mod Watch
pub mod Create
pub mod Restore
