-- ===== src/Polling/Delegated.antt =====
-- A page that the web process reads through the helper of helper/ktn_ident_helper.py.
use ktn_enclosure_manager.Common.{
  ◌≤◌, true, false, Option, none, some, List, [], ◌∷◌, ◌++◌, length, ◌≡◌, refl, arith, nat_eq,
  list_eq, is_some,
}
use ktn_enclosure_manager.Common.Dict.{Dict, get}
use ktn_enclosure_manager.Common.Text.{Text, strip}
use ktn_enclosure_manager.Errors.{Exception, Outcome, ok, raise, locate_error, ses_read_failed}
use ktn_enclosure_manager.Locate.Plan.{Plans, is_absent}
use ktn_enclosure_manager.Locate.Request.{PyValue, str_value}
use ktn_enclosure_manager.Sysfs.Scan.{EnclosureRef, Roots}
use ktn_enclosure_manager.Sysfs.Tree.{Kernel}
use ktn_enclosure_manager.Writer.Boundary.{AreChunks, receive-AreChunks}
use ktn_enclosure_manager.Writer.Client.{Socket, max_response_bytes, send}
use ktn_enclosure_manager.Writer.Helper.{
  Codec, object, or_braces, admit_read, answer_page, read_device, dispatch_read, dispatch_object,
  dispatch, response_of, handle,
}
use ktn_enclosure_manager.Writer.Local.{LocateWriter}
use ktn_enclosure_manager.Writer.Runner.{
  Shell, SesOutcome, done, ses_error, read_only_pages, read_page, read_for,
}
use ktn_enclosure_manager.Polling.HelperRunner.{
  HelperReads, read_request, page_in, read_page_for, no_reason, str_or,
}
use ktn_enclosure_manager.Polling.Runner.{Page, output, unread}

module _ {W : Type 0} (k : Kernel W) (roots : Roots) (binary : Text) (shell : Shell W)
    (writer : LocateWriter (W × Plans)) (allowlist : List Text) (message : Exception → Text)
    (codec : Codec) (socket : Socket (W × Plans)) (r : HelperReads (W × Plans)) where
  -- What the web process is given for the end of a read in the helper.
  abbrev pub refused_with : Exception → Page
  refused_with e = unread (str_or r.str no_reason (str_value (message e)))

  abbrev pub through : SesOutcome Text → Page
  through (done out) = output (str_or r.str [] (str_value out))
  through (ses_error e) = refused_with (locate_error ses_read_failed)

  abbrev pub read_line : Text → Text → Text
  read_line id page = codec.dumps (read_request id page) ++ 10 ∷ []

  abbrev answers : Text → Text → W → Outcome (Dict Text PyValue) × W
  answers id page w = dispatch_read k roots binary shell writer allowlist (read_request id page) w

  -- The helper's response to the request.
  abbrev pub told : Text → Text → W × Plans → Dict Text PyValue
  told id page s = response_of message (answers id page s.0).0

  abbrev pub admitted : Text → Text → W → Outcome EnclosureRef
  admitted id page w = admit_read k roots binary shell writer allowlist (read_request id page) w

  -- A read of the enclosure that the helper admits, by its own runner.
  abbrev pub read_here : Outcome EnclosureRef → Text → W × Plans → Page × (W × Plans)
  read_here (raise e) page s = (refused_with e, s)
  read_here (ok ref) page s =
      let (o, after) = read_for binary shell ref.sg_device page s.0 in (through o, (after, s.1))

  abbrev shown : Outcome (Dict Text PyValue) × W → Plans → Page × (W × Plans)
  shown (o, after) plans = (page_in codec socket r (some (response_of message o)), (after, plans))

  shown-answer_page :
      (q : SesOutcome Text × W) (plans : Plans)
      → shown (answer_page k roots binary shell writer allowlist q) plans
        ≡ (through q.0, (q.1, plans))
  unfolding answer_page page_in get
  shown-answer_page (done out, w) plans = refl
  shown-answer_page (ses_error e, w) plans = refl

  shown-read_device :
      (page : Text) (device : Option Text) (w : W) (plans : Plans)
      → is_absent device ≡ false
      → shown (read_device k roots binary shell writer allowlist page device w) plans ≡ (
        through (read_for binary shell device page w).0,
        ((read_for binary shell device page w).1, plans),
      )
  unfolding read_device read_for
  shown-read_device page none w plans there = absurd (cc there)
  shown-read_device page (some device) w plans there =
      rw (there, read_for) (shown-answer_page (read_page binary shell device page w) plans)

  admitted-device :
      (id page : Text) (w : W) (ref : EnclosureRef)
      → admitted id page w ≡ ok ref
      → is_absent ref.sg_device ≡ false
  unfolding admit_read
  admitted-device id page w ref h = ground arith

  shown-answers :
      (id page : Text) (w : W) (plans : Plans) (o : Outcome EnclosureRef)
      → is_some (get page read_only_pages) ≡ true
      → admitted id page w ≡ o
      → shown (answers id page w) plans ≡ read_here o page (w, plans)
  unfolding dispatch_read page_in get
  shown-answers id page w plans (raise e) listed h = rw (listed, h) refl
  shown-answers id page w plans (ok ref) listed h =
      rw (listed, h)
        (shown-read_device page ref.sg_device w plans (admitted-device id page w ref h))

  abbrev pub answer_line : Text → Text → W × Plans → Text
  answer_line id page s = codec.dumps (told id page s) ++ 10 ∷ []

  handled :
      (id page : Text) (s : W × Plans)
      → codec.loads (or_braces (strip (read_line id page))) ≡ object (read_request id page)
      → handle k roots binary shell writer allowlist codec message (read_line id page) s
        ≡ (answer_line id page s, ((answers id page s.0).1, s.1))
  unfolding handle dispatch dispatch_object get
  handled id page s decoded = rw (decoded, dispatch) refl

  sent-back :
      (id page : Text) (s : W × Plans) (chunks : List Text)
      → codec.loads (or_braces (strip (read_line id page))) ≡ object (read_request id page)
      → codec.loads (or_braces (strip (answer_line id page s))) ≡ object (told id page s)
      → AreChunks chunks (answer_line id page s)
      → length (answer_line id page s) ≤ max_response_bytes
      → socket.exchange s (read_line id page) ≡ (
        some chunks,
        (handle k roots binary shell writer allowlist codec message (read_line id page) s).1,
      )
      → send codec socket (read_request id page) s
        ≡ (some (told id page s), ((answers id page s.0).1, s.1))
  unfolding send
  sent-back id page s chunks asked answered pieces short exchanged = ground (
    arith,
    exchanged,
    receive-AreChunks 0 pieces (omega (arith, short)),
    answered,
    handled id page s asked,
  )

  -- A page that is on the list, read through the helper: where the codec reads back the two dicts of
  -- the exchange, and the socket hands the request's line to the helper and brings its answer in chunks
  -- of at most 8 MiB, the web process has the page that the helper's own runner reads from the device
  -- of the enclosure, if the helper admits it, and else the reason why it does not.
  pub read_page_for-delegated :
      (id page : Text) (s : W × Plans) (chunks : List Text)
      → is_some (get page read_only_pages) ≡ true
      → codec.loads (or_braces (strip (read_line id page))) ≡ object (read_request id page)
      → codec.loads (or_braces (strip (answer_line id page s))) ≡ object (told id page s)
      → AreChunks chunks (answer_line id page s)
      → length (answer_line id page s) ≤ max_response_bytes
      → socket.exchange s (read_line id page) ≡ (
        some chunks,
        (handle k roots binary shell writer allowlist codec message (read_line id page) s).1,
      )
      → read_page_for codec socket r id page s ≡ read_here (admitted id page s.0) page s
  unfolding read_page_for
  read_page_for-delegated id page s chunks listed asked answered pieces short exchanged =
      rw (listed, sent-back id page s chunks asked answered pieces short exchanged)
        (shown-answers id page s.0 s.1 (admitted id page s.0) listed refl)
