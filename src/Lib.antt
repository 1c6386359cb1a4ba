-- ===== src/Lib.antt =====
-- Verification of Rogatio's core: the project schema and its capture templates, the compiler that
-- turns projects into operations and selects the one that applies to a request, the repository
-- that keeps the projects of a browser profile, the messages and the security core of the native
-- host, and the match history of the extension.
--
-- Parts and files. Paths are from the repository's root. A definition has the name of the function
-- or type that it models, in snake_case (`buildCreate` is `build_create`); a field or a method that
-- is a reserved word here is renamed at its definition (`data` is `contents`).
--   Prelude: the shared numbers, lists, texts, association lists (`Prelude.Dict`, for the own
--     entries of an object or a Map, in insertion order) and the stable sort.
--   Schema.Types: packages/schema/src/types.ts and limits.ts. Schema.Captures: captures.ts.
--   Compiler.Types, Compiler.Compile: packages/compiler/src/types.ts and compile.ts. A throw is
--     `none`. Compiler.Matcher: selector.ts, and the matching part of source-match.ts and of
--     packages/schema/src/regex.ts. Compiler.Query: query.ts, on the decoded pairs of a URL.
--   BrowserCore.Types, BrowserCore.Store: packages/browser-core/src/types.ts and diagnostics.ts,
--     and the StorageAdapter contract. BrowserCore.FileRoot: the mock file root of migrate.ts.
--     BrowserCore.Envelope: the mutations of repository.ts, each a function from the envelope to a
--     commit, a conflict or a failure. BrowserCore.Repository: the operations, which read, build,
--     and compare and swap, with at most three attempts (one for a save).
--     BrowserCore.Install: install.ts over the RuleInstallerAdapter contract, whose calls end as a
--     list of answers says. BrowserCore.Status: status.ts.
--   Runtime.Capability: packages/runtime/src/capability.ts. Runtime.Addresses and
--     Runtime.AddressPolicy: address-policy.ts.
--   Runtime.Framing: the frames of packages/runtime/src/native-framing.ts. Runtime.InputPump:
--     native-input-pump.ts. Runtime.Envelope: envelope.ts. Runtime.ProjectStage: project-stage.ts
--     and the stage of native-framing.ts. Runtime.Host: the part of host.ts that takes a message
--     apart, keeps the stage of a project and hands envelopes on. Runtime.Results: the error codes.
--   Schema.Path: packages/schema/src/path.ts. Runtime.Url: packages/runtime/src/url.ts.
--     Runtime.Authorization: authorization.ts.
--   Extension.LogText: the truncation of packages/extension/src/match-log-redaction.ts.
--     Extension.MatchHistory: the ring of match-history.ts and the tasks of its write chain, each
--     with what the toggle reads and which storage calls throw.
--   Prelude.Json: JSON values; a number that is no integer is kept by its text.
--   Tests: concrete inputs on which the theorems apply.
--
-- State and interference. The repository's state is the stored value. Other writers and calls that
-- throw are a list of events, of which each storage call takes one; with no event left nothing
-- interferes. The session array of the native host holds references: a session object that an
-- operation holds lives on when the array has dropped it.
--
-- Fuel. `count_from` runs on fuel that is one more than the length of the pattern: each round
-- moves forward. `prefix_from` runs on as many rounds as the prefix has bits: each round takes at
-- least one of them. The loop of the input pump runs on one turn more than the buffer has bytes:
-- each turn that goes on takes a byte at least. The attempts of `mutate` are the source's own
-- bound.
--
-- Messages. Bytes are natural numbers. A JSON text is given by its UTF-8 bytes; `print` and
-- `parse` are its codec, of which a theorem assumes, for the one value at hand, that parsing
-- undoes printing. The native host is modelled for messages one after another; the reply of the
-- browser to a request of the host overtakes others, but carries no part of a project.
--
-- Parameters. URL parsing and RegExp (Compiler.Matcher.Platform), JSON texts, base64, SHA-256,
-- random tokens, `isIP`, the equality of JSON texts, the clock and generated ids are arguments.
-- So are the decoding of a stored value, the structural comparison and the validation of unknown
-- data (BrowserCore.Repository.Platform), of which the theorems assume by name what they need:
-- `EncodesValid`, `SameIsEqual`. Timestamps, revisions and priorities are natural numbers.
--
-- Not modelled: the JSON Schema validator and the deep copies of unknown values; migration of old
-- projects; the messages of diagnostics; the extension's pages, listeners and service worker, the
-- editor and the command line (user interface, files and sockets); the native host's proxy and
-- trust store; what the repository goes on with after an id has found a name that every object
-- inherits (`stray`), and that name in the lookup of a save whose swap failed.
--
-- Inherited names. An object that is looked up by id has the properties of `Object.prototype` too.
-- Creating, switching and removing are modelled for them as they run; the other operations stray,
-- and a theorem about these says for which ids it holds.
pub mod Prelude
pub mod Schema
pub mod Compiler
pub mod BrowserCore
pub mod Runtime
pub mod Extension
pub mod Tests
