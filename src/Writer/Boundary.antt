-- ===== src/Writer/Boundary.antt =====
-- The two sides of the helper's socket together: what a write through the helper does.
use ktn_enclosure_manager.Common.{
  ℕ, ◌+◌, ◌≤◌, ℤ, Bool, true, false, some, List, [], ◌∷◌, ◌++◌, length, length-append, ltb, ◌≡◌,
  refl, arith, Bool-cases, inl, inr, nat_eq, list_eq,
}
use ktn_enclosure_manager.Common.Dict.{Dict, get}
use ktn_enclosure_manager.Common.Text.{Text, codes, strip}
use ktn_enclosure_manager.Errors.{
  Exception, slot_not_found, auth_error, os_error, other_exception, enclosure_not_found, Outcome,
  ok, raise, ◌>>=◌, locate_error, helper_refused, not_in_allowlist, enclosure_not_attached,
  Outcome-cases,
}
use ktn_enclosure_manager.Locate.Request.{PyValue, str_value, int_value, validate_request}
use ktn_enclosure_manager.Locate.Validation.{validate_request_idem}
use ktn_enclosure_manager.Locate.Plan.{Plans}
use ktn_enclosure_manager.Sysfs.Tree.{Kernel}
use ktn_enclosure_manager.Sysfs.Scan.{EnclosureRef, Roots, resolve}
use ktn_enclosure_manager.Writer.Runner.{Shell}
use ktn_enclosure_manager.Writer.Local.{LocateWriter}
use ktn_enclosure_manager.Writer.Helper.{
  Codec, object, or_braces, is_barred, as_refused, admit, perform, dispatch_object, dispatch,
  response_of, handle, answer_locate,
}
use ktn_enclosure_manager.Writer.Client.{
  Socket, ends_line, receive, max_response_bytes, send, answer_of, request_of, op_of, request,
  helper_write,
}

-- The chunks that carry a line: none is empty, and only the last one ends the line.
pub data AreChunks : List Text → Text → Type 0 where
  last_chunk : {chunk : Text} → ends_line chunk ≡ true → AreChunks (chunk ∷ []) chunk
  next_chunk :
      {c : ℕ} {chunk : Text} {chunks : List Text} {line : Text}
      → ends_line (c ∷ chunk) ≡ false
      → AreChunks chunks line
      → AreChunks ((c ∷ chunk) ∷ chunks) ((c ∷ chunk) ++ line)

not_longer : (n : ℕ) → n ≤ max_response_bytes → ltb max_response_bytes n ≡ false
not_longer n h = ground arith

-- A line that is not too long is received whole, however it is cut into chunks.
pub receive-AreChunks :
    (total : ℕ) {chunks : List Text} {line : Text}
    → AreChunks chunks line
    → total + length line ≤ max_response_bytes
    → receive total chunks ≡ some line
unfolding receive ends_line
receive-AreChunks total {chunks = [] ∷ []} (last_chunk e) h = cc
receive-AreChunks total {chunks = (c ∷ s) ∷ []} (last_chunk e) h =
    rw (not_longer (total + length (c ∷ s)) h, e, receive)
receive-AreChunks total (next_chunk {c = c} {chunk = s} {line = line} e rest) h =
    let all = length-append (c ∷ s) line in
    rw (
      not_longer (total + length (c ∷ s)) (omega (arith, h, all)),
      e,
      receive,
      receive-AreChunks (total + length (c ∷ s)) rest (omega (arith, h, all)),
    )

-- What the client makes of the result of the helper's writer.
abbrev pub via_helper : Outcome Bool → Outcome Bool
via_helper (ok state) = ok state
via_helper (raise e) = raise (locate_error helper_refused)

module _ {W : Type 0} (k : Kernel W) (roots : Roots) (binary : Text) (shell : Shell W)
    (writer : LocateWriter (W × Plans)) (allowlist : List Text) where
  -- A write of a valid request by the helper's writer, under the allow-list, for an enclosure that
  -- is attached.
  unfoldable pub delegated : Text × ℤ → Bool → W × Plans → Outcome Bool × (W × Plans)
  delegated valid on s = elim (is_barred allowlist valid.0) [
    | true ↦ (raise (locate_error helper_refused), s)
    | false ↦ elim (resolve k s.0 roots valid.0) [
      | raise e ↦ (raise (locate_error helper_refused), s)
      | ok ref ↦ let (o, after) = writer.write valid.0 valid.1 on s in (via_helper o, after)
    ]
  ]

  module _ (message : Exception → Text) where
    abbrev reply : Dict Text PyValue → W × Plans → Outcome (Dict Text PyValue) × (W × Plans)
    reply q s = dispatch_object k roots binary shell writer allowlist q s

    admit-valid :
        (valid : Text × ℤ) (op : Text) (w : W)
        → validate_request (str_value valid.0) (int_value valid.1) ≡ ok valid
        → is_barred allowlist valid.0 ≡ false
        → (ref : EnclosureRef) → resolve k w roots valid.0 ≡ ok ref
        → admit k roots binary shell writer allowlist (request_of op valid.0 valid.1) w
          ≡ ok (valid, ref)
    unfolding admit get
    admit-valid valid op w v b ref r = rw (v, b, r)

    admit-barred :
        (valid : Text × ℤ) (op : Text) (w : W)
        → validate_request (str_value valid.0) (int_value valid.1) ≡ ok valid
        → is_barred allowlist valid.0 ≡ true
        → admit k roots binary shell writer allowlist (request_of op valid.0 valid.1) w
          ≡ raise (locate_error not_in_allowlist)
    unfolding admit get
    admit-barred valid op w v b = rw (v, b)

    admit-detached :
        (valid : Text × ℤ) (op : Text) (w : W)
        → validate_request (str_value valid.0) (int_value valid.1) ≡ ok valid
        → is_barred allowlist valid.0 ≡ false
        → (e : Exception) → resolve k w roots valid.0 ≡ raise e
        → (f : Exception) × (admit k roots binary shell writer allowlist
              (request_of op valid.0 valid.1)
              w
            ≡ raise f)
    unfolding admit get
    admit-detached valid op w v b (locate_error r0) r = (locate_error r0, rw (v, b, r))
    admit-detached valid op w v b enclosure_not_found r =
        (locate_error enclosure_not_attached, rw (v, b, r))
    admit-detached valid op w v b slot_not_found r = (slot_not_found, rw (v, b, r))
    admit-detached valid op w v b (auth_error r0) r = (auth_error r0, rw (v, b, r))
    admit-detached valid op w v b os_error r = (os_error, rw (v, b, r))
    admit-detached valid op w v b other_exception r = (other_exception, rw (v, b, r))

    -- The answer to an operation's end, as the client reads it.
    answered :
        (end : Outcome Bool × (W × Plans))
        → ◌≡◌ {A = Outcome Bool × (W × Plans)}
            (
              answer_of (
                  some
                    (response_of message (as_refused end.0 >>= λ state. ok (answer_locate state)))),
              end.1,
            )
            (via_helper end.0, end.1)
    unfolding get
    answered (ok state, after) = refl
    answered (raise (locate_error r), after) = refl
    answered (raise enclosure_not_found, after) = refl
    answered (raise slot_not_found, after) = refl
    answered (raise (auth_error r), after) = refl
    answered (raise os_error, after) = refl
    answered (raise other_exception, after) = refl

    reply-delegated :
        (valid : Text × ℤ) (on : Bool) (s : W × Plans)
        → validate_request (str_value valid.0) (int_value valid.1) ≡ ok valid
        → ◌≡◌ {A = Outcome Bool × (W × Plans)}
            (
              answer_of
                  (some (response_of message (reply (request_of (op_of on) valid.0 valid.1) s).0)),
              (reply (request_of (op_of on) valid.0 valid.1) s).1,
            )
            (delegated valid on s)
    unfolding dispatch_object perform get delegated
    reply-delegated valid true s v = elim (Bool-cases (is_barred allowlist valid.0)) [
      | inl b ↦ rw (admit-barred valid (codes "identify_on") s.0 v b, b, delegated)
      | inr b ↦ elim (Outcome-cases (resolve k s.0 roots valid.0)) [
        | inr (e, r) ↦
            let (f, a) = admit-detached valid (codes "identify_on") s.0 v b e r in
            rw (a, b, r, delegated)
        | inl (ref, r) ↦
            rw (admit-valid valid (codes "identify_on") s.0 v b ref r, b, r, delegated)
              (answered (writer.write valid.0 valid.1 true s))
      ]
    ]
    reply-delegated valid false s v = elim (Bool-cases (is_barred allowlist valid.0)) [
      | inl b ↦ rw (admit-barred valid (codes "identify_off") s.0 v b, b, delegated)
      | inr b ↦ elim (Outcome-cases (resolve k s.0 roots valid.0)) [
        | inr (e, r) ↦
            let (f, a) = admit-detached valid (codes "identify_off") s.0 v b e r in
            rw (a, b, r, delegated)
        | inl (ref, r) ↦
            rw (admit-valid valid (codes "identify_off") s.0 v b ref r, b, r, delegated)
              (answered (writer.write valid.0 valid.1 false s))
      ]
    ]

    module _ (codec : Codec) (socket : Socket (W × Plans)) where
      -- The request's line, and the response's, to a write of a valid request.
      abbrev pub sent : Text × ℤ → Bool → Text
      sent valid on = codec.dumps (request_of (op_of on) valid.0 valid.1) ++ 10 ∷ []

      abbrev pub response : Text × ℤ → Bool → W × Plans → Dict Text PyValue
      response valid on s = response_of message (reply (request_of (op_of on) valid.0 valid.1) s).0

      handled :
          (valid : Text × ℤ) (on : Bool) (s : W × Plans)
          → codec.loads (or_braces (strip (sent valid on)))
            ≡ object (request_of (op_of on) valid.0 valid.1)
          → handle k roots binary shell writer allowlist codec message (sent valid on) s ≡ (
            codec.dumps (response valid on s) ++ 10 ∷ [],
            (reply (request_of (op_of on) valid.0 valid.1) s).1,
          )
      unfolding handle dispatch
      handled valid on s decoded = rw (decoded, dispatch)

      -- A write through the helper, for a request that is valid: where the codec reads back the two
      -- dicts of the exchange, and the socket hands the request's line to the helper and brings its answer
      -- in chunks of at most 8 MiB, the result and the world are those of the helper's own writer on
      -- the validated request, under the allow-list and for an enclosure that is attached; every error
      -- on the helper's side is a refusal.
      pub helper_write-delegated :
          (id : Text) (slot : ℤ) (on : Bool) (s : W × Plans) (valid : Text × ℤ) (chunks : List Text)
          → validate_request (str_value id) (int_value slot) ≡ ok valid
          → codec.loads (or_braces (strip (sent valid on)))
            ≡ object (request_of (op_of on) valid.0 valid.1)
          → codec.loads (or_braces (strip (codec.dumps (response valid on s) ++ 10 ∷ [])))
            ≡ object (response valid on s)
          → AreChunks chunks (codec.dumps (response valid on s) ++ 10 ∷ [])
          → length (codec.dumps (response valid on s) ++ 10 ∷ []) ≤ max_response_bytes
          → socket.exchange s (sent valid on) ≡ (
            some chunks,
            (handle k roots binary shell writer allowlist codec message (sent valid on) s).1,
          )
          → helper_write codec socket id slot on s ≡ delegated valid on s
      unfolding helper_write request send
      helper_write-delegated id slot true s valid chunks v asked told pieces short exchanged =
          rw
            (
              v,
              exchanged,
              send,
              receive-AreChunks 0 pieces (omega (arith, short)),
              told,
              exchanged,
              handled valid true s asked,
            )
            (reply-delegated valid true s (validate_request_idem (str_value id) (int_value slot) v))
      helper_write-delegated id slot false s valid chunks v asked told pieces short exchanged =
          rw
            (
              v,
              exchanged,
              send,
              receive-AreChunks 0 pieces (omega (arith, short)),
              told,
              exchanged,
              handled valid false s asked,
            )
            (reply-delegated valid false s
              (validate_request_idem (str_value id) (int_value slot) v))
