-- ===== src/Lib.antt =====
-- Codex Vault keeps each user's Codex profile as one encrypted file, and unlocks it into a private
-- directory. This library models the Rust program and proves what its parts promise.
--
-- The parts. A user has a manifest (src/manifest.rs: `Manifest`), whose key parameters turn the
-- password into a wrapping key (src/crypto/kdf.rs: `Keys`). That key wraps a random data key
-- (src/crypto/key_wrap.rs: `Keys.Wrap`), bound to the header of the manifest by its associated
-- data; the profile store creates, opens and changes these keys (src/store.rs: `Store`). It keeps
-- the manifest and the archive of a profile in files: `Store.Disk` has the files and the lock,
-- `Store.Users` creates and lists profiles, `Store.Session` changes a password, and unlocks and
-- closes a profile, and `Store.Sessions` has rows of such calls, with the lock of a profile as a
-- machine. A directory is sealed into an archive and unsealed from it (src/archive.rs: `Archive`).
-- Under the data key a profile's archive is written and read as a stream of sealed frames
-- (src/crypto/vault_stream.rs: `Stream`). The runner unlocks a profile, runs the program in it, and
-- closes it (src/runner.rs: `Runner`). The commands of the terminal call these (src/main.rs:
-- `Cli`). Directories are checked before they are used, and the runtime root is chosen among
-- candidates (src/config.rs: `Private`). The daemon and its clients exchange framed JSON messages
-- (src/daemon_protocol.rs: `Protocol`), one request and one answer on a connection (src/daemon.rs:
-- `Daemon`), at a socket file that the daemon binds and guards (`Daemon.Listener`);
-- `Daemon.Program` is the program around it (src/bin/codex-vaultd.rs). Every part reports the
-- errors of src/error.rs (`Error`, and `Error.Display` for their texts).
--
-- How the code corresponds. A function of the source has the same name here; `VaultWriter::new` is
-- `Stream.Writer.new`, `Read::read` of `VaultReader` is `Stream.Reader.read`. A method that
-- mutates its object is an `Action` (`Prelude`): it returns the result and the object that it
-- leaves, also beside an error. A function that only fails returns a `Result`, with `?` as bind.
-- Bytes are numbers, with the wrap-around of a word written out; a Rust string is its UTF-8 bytes
-- where its bytes matter.
--
-- Parameters. What the source only calls is a record, with its documented behaviour as a second
-- record: AES-256-GCM (`Stream.Format.Aead`, `IsAead`), base64 and Argon2 (`Keys.Base64`,
-- `IsBase64`, `Argon2`), serde_json (`Protocol.Json`, `IsJson`), readers and writers (`Device`),
-- the file system (`Private.FileSystem`, `Files.Files`, `Files.Contents.IsFiles`, with what is
-- documented of locks in `Files.Locking.IsLocking`, of directories in
-- `Files.Directories.IsDirectories`, and of a file that is opened to be read in
-- `Archive.Unpacking.IsReadable`), the tar crate (`Archive.Tar`, `Archive.Unpacking.IsUnpacking`,
-- and `Archive.Unpacking.IsBuilt`: an archive that tar wrote has the entries of the directory),
-- child processes and signals (`Runner.Processes`), and a connected Unix socket (`Daemon.Socket`)
-- and the files of sockets (`Daemon.Listener.Sockets`). `Store.Host` is what the store takes of
-- these. The operating system's random bytes, the clock, the environment and random UUIDs are
-- arguments. `Tests` has instances that run, and the theorems at concrete inputs.
--
-- Bounds and fuel. `Stream.Writer.write_chunks` runs on the length of the input, since each round
-- takes a chunk of 65536 bytes. `Stream.Reader.read` runs on 2 ^ 32 rounds, since each accepted
-- frame adds 1 to a sequence number below 2 ^ 32. `Stream.Reader.drain` is what a caller does, and
-- takes the number of reads; more reads than there are bytes left to read are enough.
-- `Archive.unpack_entries` and what follows it run on fuel: more than the length of the file, and
-- the moves in which the tar reader, which is outside, ends (`Archive.Ends.EndsWithin`), are
-- enough. `none` is a run whose fuel was not enough, and `Store.Session.unlock` and `Runner.run_program`
-- hand it on. `Error.Display.decimal` writes 20 digits, which a 64-bit
-- number does not exceed. The daemon's loop, `Daemon.Listener.serve_rounds`, runs on a list of
-- rounds, each the flag to stop and what `accept` gives; at the end of the list it still runs.
--
-- Not modelled: argument parsing (clap in src/main.rs and src/bin/codex-vaultd.rs); the erasure of
-- secrets from memory, which no value shows; the line that the daemon prints of a connection that
-- failed; and that `std::io::copy` reads again after an interrupted read.
pub mod Prelude
pub mod Error
pub mod Private
pub mod Protocol
pub mod Manifest
pub mod Archive
pub mod Daemon
pub mod Device
pub mod Files
pub mod Keys
pub mod Store
pub mod Runner
pub mod Cli
pub mod Stream
mod Tests
