-- ===== src/Lib.antt =====
-- A model of the KTN enclosure manager's backend, and theorems about it.
--
-- The program (backend/ktnmgr) watches a SAS disk shelf. It discovers the enclosure's bays over
-- sysfs and SES, joins each bay with what TrueNAS says of its disk, shows the bays with a health,
-- lights and clears the IDENT lamp of a bay on request, alerts the operator when a health turns
-- bad, and keeps accounts and an audit log. The core of it is the IDENT manager: it owns the
-- lamps that it lit, clears them when they expire, and is meant to leave a foreign one alone. It writes
-- through a `LocateWriter`, which turns a slot number into an SES element; the composition of the
-- bays asks it (`describe`) whose a lit lamp is; the alerts read the composed bays.
--
-- Files, each named after the part of the program:
--   Common    Python's dict as an association list in insertion order (Dict), text as a list of
--             code points (Text), the regular expressions of `re` as matchers that backtrack (Regex),
--             equality tests (Eq), integers and lists.
--   Errors    the exceptions that the handlers tell apart, and the outcome of a call.
--   Audit     backend/ktnmgr/services/audit.py: the entry that `AuditLog.record` builds (Entry), the
--             rotation, the append and `tail` (Log); the lines of a text in Lines.
--   Locate    backend/ktnmgr/enclosure/locate.py and ses_parser.py: `validate_request` (Request),
--             the parsed page (Aes), `_build_slot_map` (SlotMap) and the addressing it gives, and
--             the cached look-ups of `SesLocateWriter` before its command (Plan).
--   Ses       backend/ktnmgr/enclosure/ses_parser.py: the expressions of a line (Lines), the
--             additional element status page (AesPage), the configuration page (Configuration), the
--             readings of an element (Readings) and the joined status page (Join). An independent
--             reading of the pages is in Sections and Elements, a printer in Print.
--   Sysfs     backend/ktnmgr/enclosure/sysfs.py: the kernel's tree (Tree), discovery, slots and
--             look-ups (Scan), the locate write and its settle loop (Settle).
--   Writer    backend/ktnmgr/enclosure/ses.py: `SesRunner` (Paths, Runner); the writers of
--             locate.py that write sysfs and that run sg_ses (Local); the dispatch of
--             helper/ktn_ident_helper.py (Helper), and the writer that asks it, with
--             helper_client.py (Client).
--   Ident     backend/ktnmgr/services/ident.py: `IdentManager` (State), what it is given (Host),
--             `identify` (Identify), `_load`, `reconcile` and one pass of `_tick` (Timers). Driven puts
--             the SES writer of Writer in the place of the host's writer.
--   Bays      backend/ktnmgr/services/state.py, models.py and truenas/correlate.py: `classify`
--             (Health), `_identity_conflict`, `merge_identity` and the body of the loop of
--             `_compose_bays` (Compose), and backend/ktnmgr/enclosure/disks.py: the cached
--             `DiskInfoReader.read` (DiskReader).
--   Correlate backend/ktnmgr/truenas/correlate.py: JSON values (Json), `build_zfs_index` (Zfs),
--             `build_disk_index` (Disks) and `build_smart_index` (Smart). Topology is the description
--             of pools that the index is compared with.
--   Polling   backend/ktnmgr/services/state.py: `Cached` (Cached), `_slot_sas_addresses` (Addresses),
--             `poll_hardware` (Service), the TrueNAS polls (Remote), `poll_chassis` (Chassis), the
--             bays and alerts of all enclosures (Composition), a pass of `_loop` and `start` (Loop).
--             `HelperSesRunner` of backend/ktnmgr/enclosure/ses.py is HelperRunner.
--   Notify    backend/ktnmgr/services/notify.py: `HealthNotifier.evaluate` (Notifier).
--   Access    backend/ktnmgr/enclosure/access.py: `enclosure_access` as steps of threads (Lock).
--   Tls       backend/ktnmgr/services/tls_watch.py: the check of `TlsWatcher` (Watcher).
--   Auth      backend/ktnmgr/services/auth.py: `RateLimiter` (Limiter), and the accounts and sessions
--             of `AuthService` (Accounts).
--
-- State and time. An object's attributes are a record, a method is a function from the state to
-- an outcome and the new state, with each early return and each handler in its place. Wall-clock
-- times are natural numbers of microseconds and monotonic times are ticks. Slots are integers.
-- Sums and products have no overflow in Python and none here. Loops over lists are structural
-- recursion. Two loops run on fuel. For the settle loop it is the milliseconds up to its deadline
-- and one: each turn sleeps, so the clock is past the deadline before the fuel is spent
-- (`Sysfs.Settle.settle_locate-unrolls`). For the window of `tail` it is the size of the file and
-- one: each turn doubles the window. A number is printed with fuel for four digits, enough
-- for the indexes of at most 1023 that are printed.
--
-- What is outside. The writer, the state file, the clocks and the text of an exception are the
-- fields of `Ident.Host.Host`, over any type of worlds; the one law asked of a writer, that it
-- moves no lamp but the one it is told to, is `Ident.Safety.Shelf`, and a theorem that needs it
-- takes it as an argument. The password hasher and the token serializer are `Auth.Accounts.Crypto`,
-- with the promises of the serializer in `Auth.Issue.Signs`. The parsed pages
-- that the look-ups of the SES writer read are `Locate.Plan.Pages`, which `Writer.Runner.ses_pages`
-- fills with the runner and the parsers. The kernel is `Sysfs.Tree.Kernel`, with the law `Passes`
-- that a sleep lets its time pass; `subprocess.run` is `Writer.Runner.Shell`, JSON over UTF-8 is
-- `Writer.Helper.Codec` and the socket is `Writer.Client.Socket`. The two certificate files,
-- SHA-256 and the parser of certificates are `Tls.Watcher.Files`. Python's `str` and the validation
-- of pydantic fields are `Correlate.Json.Fitting`, with the laws for texts, numbers and `None`; the
-- TrueNAS client is `Polling.Remote.TrueNas`, whose calls return a value, or end in an error that the
-- polls catch or in one that they do not. `Polling.Service.Shelf` and `Polling.Runner.Runner` are what
-- the polls ask of sysfs and of sg_ses, filled by `sysfs_shelf` and by `local_runner` or
-- `helper_runner`. The JSON and the UTF-8 of the audit log are `Audit.Log.Codec`, with the law
-- `Audit.Tail.IsUtf8` that a newline stays one. The answers of the webhook are a function that
-- the evaluation takes.
-- The lock of an enclosure makes `identify` one step; a concurrent `describe`, which takes no lock,
-- reads two dictionaries at two moments (`describe_over`), between any of the updates of `off_updates`
-- or `on_updates`. The composition of the bays calls it with no update in between (`describe`). The disk reader
-- returns an object that it keeps: `Bays.Compose.Composed.kept` is that object after the bay is
-- composed.
--
-- Text is lowered and stripped code point by code point; the lowering is exact wherever an ASCII
-- letter results, so two identifiers that differ only in the case of other letters are told apart
-- where Python would not. Temperatures are whole degrees.
--
-- A `\d`, `\w` or `[A-Za-z]` of an expression is an ASCII one, which sg_ses prints. One scan of the
-- kernel's tree reads one state of it: the lock of enclosure/access.py, under which a scan and a
-- write run, orders the processes and changes no value.
--
-- Not modelled: logging, the tasks that drive the loops, the sockets, the timeouts, the bound on the
-- length of a request and the command line of the helper, the signing key file, the HTTP routes, the
-- TrueNAS client and the frontend: I/O, or work that stands beside the parts above.
pub mod Common
pub mod Errors
pub mod Audit
pub mod Locate
pub mod Ident
pub mod Bays
pub mod Notify
pub mod Auth
pub mod Access
pub mod Correlate
pub mod Polling
pub mod Ses
pub mod Sysfs
pub mod Tls
pub mod Writer
