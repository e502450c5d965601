-- ===== src/Lib.antt =====
-- libappupdater: an application updater for Windows. The library reads a feed of items (a manifest),
-- chooses the item for the system and the channel, compares its version with the installed one, asks
-- the user, and downloads, verifies and starts the installer. This development models the parts that
-- decide: what is offered, when, and what is accepted; and the tool that signs what is offered.
--
-- The files, by the part of the program that they model:
--   Version: src/AutoVersion.cpp and .h. `new_version` is the constructor, `compare_component` is
--     `CompareComponent` with its two nested loops, `cmp`, `is_less` and `to_text` are the operators.
--     Version/Keys has the specification, an order on lists of keys; Version/Refinement is about
--     the loops and these keys, Version/Laws about the order, Version/RoundTrip about texts.
--   Util: util/Base64.h in Util/Base64, util/Hex.h in Util/Hex, util/Util.h in Util/Basename,
--     and the option parser of util/upgetopt.cpp in Util/Getopt, with the command lines that it reads
--     as a relation.
--   Config: src/AutoConfig.cpp and .h. Config/Keys is the table of public keys; its child Encoded is
--     about the keys that base64 texts stand for. Config/Store has
--     `ReadConfigValue` and `WriteConfigValue` over an interface, `ConfigStore`, whose one law is that
--     a written text of at most 1024 bytes is read back and other names keep theirs; names that
--     differ in case are the same. Config/Registry has the functions that read, write and delete in
--     two hives of the registry, over its calls; its children fill the interface and treat deletion.
--     Config/Language is the choice of a translation of the version resource. Config/Session has the
--     setters, the getters that read a text of the resources once, the path in the registry and
--     `HasEdDSAPub`.
--   Localisation: localisation/NSLocalizedCollectionImpl.cpp. The map of texts and `lookup` are in
--     Localisation itself, `load_strings` with the parser of strings in Localisation/Strings,
--     `load_object` in Localisation/Objects, `load_po` in Localisation/Po. Localisation/Format is
--     `parse_format` of localisation/NSFormat.cpp: Format/Letters has its switch as a function from
--     letters, Format/Fields the fields and the table of argument types. Their children print and
--     encode what these read, and treat the loops and the table.
--   Manifest: src/AutoManifest.cpp and .h. Manifest/Parser has the context of the XML parser,
--     Manifest/Parser/Tags the names, Manifest/Parser/Handlers the three handlers and the run over a
--     list of calls, Manifest/Parser/Trimmed what `trim` leaves, Manifest/Selection the weights, `best_match`, `Load` and `IsCriticalUpdate`.
--   Updater: src/AutoUpdater.cpp. Updater/Settings has the settings, the schedule of automatic checks
--     and skipped versions; it takes a `ConfigStore`. Updater/Check is `IsAvailable` (with
--     `GitHub::IsEndpoint` of src/AutoGitHub.cpp), Updater/Verify is `Verify` (its child Trusted, with
--     `HasEdDSAPub` before it), Updater/Execute is
--     `Execute`, which calls the check and the settings. Updater/Target is `GetTargetName`, and
--     Updater/Install `InstallNow`, which calls it and `Verify`. Updater/Release is
--     `GitHub::GetLatestRelease` of src/AutoGitHub.cpp, whose answer the check takes.
--   Sign: the signing tool. Sign is `SignManifestEd` of sign/signmanifest.cpp, with `File::load`,
--     `ReplaceString`, `Hash` and `Sign`; Sign/Tool is `SignToolShim` of sign/signtoolshim.cpp, over the
--     option parser. Sign/Markup has the printed item as XML and the calls of the XML parser for it,
--     Sign/Plain the texts that need no escape, Sign/Reading the handlers on these calls.
--   CLib: `strtol`, `atoi`, `sscanf` and `printf` for numbers, `_stricmp` and `sprintf_s`, as the C
--     library of Windows has them: `long` and `int` have 32 bits, and `strtol` saturates.
--   Prelude: the names that all modules share. Tests: concrete runs.
--
-- State is passed on explicitly: the parser's context, the settings and the session are records or a
-- type of the interface, and each operation returns the new one. An exception is a result of its own.
-- The time of day is an argument. A text is the list of its bytes.
--
-- Bounds and fuel: `compare_loop` takes fuel, the length of the first text and one more, because each
-- round of the loop that goes on makes the first text shorter.
-- The loops of `load_strings`, `get_str`, `load_object`, `load_po` and `parse_format` take the length
-- of the text or data, with one more in `get_str`, because each round reads some of it. The loop over
-- `Getopt` takes any fuel above the number of letters and arguments that are left. `make_directory`
-- takes the number of rounds, since the loop of `GetTargetName` has no bound of its own.
-- `digits_onto` takes n + 1 for the digits of n. All other loops follow their lists.
--
-- Not in src, and hence parameters: the calls that expat makes for a text and its verdict on the
-- text; the system's hashes and the ed25519 library, an interface of streams, and for the signing
-- tool one of signatures; the JSON library; the versions and directories that
-- Windows reports, the registry, the resources of the program, the conversion of wide characters and the
-- start of a process; downloads and dialogs. What lies behind the end of an attribute array is a
-- parameter as well, since the program reads it. expat, ed25519 and cjson are copied into the repository;
-- they are other projects' code.
--
-- Not modelled: the console mode and the language of `Config`, which are only stored; the printing of
-- formats (`exec_format`); the option parser on wide texts, which is the same as that on narrow
-- ones; the dialogs, logging, the files of keys (`ed25519_load_pem`, a parameter of the signing tool),
-- and the update tool.
pub mod Prelude
pub mod CLib
pub mod Util
pub mod Config
pub mod Localisation
pub mod Manifest
pub mod Version
pub mod Updater
pub mod Sign
pub mod Tests
