-- ===== src/Ident/Effects.antt =====
-- What `identify` leaves behind: in the dictionaries, in the state file and in the audit log.
use ktn_enclosure_manager.Common.{
  ℕ, ℤ, ◌≡◌, ◌≢◌, subst, refl, Bool, true, false, Option, some, none, ◌==◌, list_eq, nat_eq,
  bool_eq, pair_eq, int_eq, inl, inr, not, ◌&&◌, Bool-cases,
}
use ktn_enclosure_manager.Common.Dict.{get, get-put_self, get-pop_self, get-put_ne, get-pop_ne}
use ktn_enclosure_manager.Common.Text.{Text}
use ktn_enclosure_manager.Errors.{Outcome, ok, raise, Exception, Outcome-cases}
use ktn_enclosure_manager.Locate.Request.{int_value, str_value, validate_request}
use ktn_enclosure_manager.Ident.State.{Key, IdentRecord, Manager, values}
use ktn_enclosure_manager.Ident.Host.{Host, Sys}
use ktn_enclosure_manager.Ident.Identify.{
  Request, is_offered, clear_retry, off_updates, on_updates, apply_all, audit, new_record, publish,
  settle, attempt, locked, identify,
}

-- One bay of the three dictionaries has changed, and no other.
pub record Elsewhere (key : Key) (m m' : Manager) : Type 0 where
  pub same_records : (j : Key) → key ≢ j → get j m'.records ≡ get j m.records
  pub same_failures : (j : Key) → key ≢ j → get j m'.clear_failures ≡ get j m.clear_failures
  pub same_writes : (j : Key) → key ≢ j → get j m'.last_write ≡ get j m.last_write

-- The bay has no record, no retry state, and a stamp that says dark.
pub record Cleared (key : Key) (m m' : Manager) : Type 0 where
  pub no_record : get key m'.records ≡ none
  pub no_failures : get key m'.clear_failures ≡ none
  pub stamped_at : ℕ
  pub stamped : get key m'.last_write ≡ some (stamped_at, false)
  pub elsewhere : Elsewhere key m m'

-- The bay has the record `r`, no retry state, and a stamp that says lit.
pub record Lit (key : Key) (r : IdentRecord) (m m' : Manager) : Type 0 where
  pub recorded : get key m'.records ≡ some r
  pub no_failures : get key m'.clear_failures ≡ none
  pub stamped_at : ℕ
  pub stamped : get key m'.last_write ≡ some (stamped_at, true)
  pub elsewhere : Elsewhere key m m'

off_updates-Cleared :
    (key : Key) (at : ℕ) (m : Manager)
    → Cleared key m (apply_all (off_updates key at) (clear_retry key m))
unfolding apply_all off_updates
off_updates-Cleared key at m = record {
  no_record = get-pop_self key m.records;
  no_failures = get-pop_self key m.clear_failures;
  stamped_at = at;
  stamped = get-put_self key (at, false) m.last_write;
  elsewhere = record {
    same_records = λ j ne. get-pop_ne key j m.records ne;
    same_failures = λ j ne. get-pop_ne key j m.clear_failures ne;
    same_writes = λ j ne. get-put_ne key j (at, false) m.last_write ne;
  };
}

on_updates-Lit :
    (key : Key) (r : IdentRecord) (at : ℕ) (m : Manager)
    → Lit key r m (apply_all (on_updates key r at) (clear_retry key m))
unfolding apply_all on_updates
on_updates-Lit key r at m = record {
  recorded = get-put_self key r m.records;
  no_failures = get-pop_self key m.clear_failures;
  stamped_at = at;
  stamped = get-put_self key (at, true) m.last_write;
  elsewhere = record {
    same_records = λ j ne. get-put_ne key j r m.records ne;
    same_failures = λ j ne. get-pop_ne key j m.clear_failures ne;
    same_writes = λ j ne. get-put_ne key j (at, true) m.last_write ne;
  };
}

module _ {W : Type 0} (h : Host W) where
  -- The state file was last written with the records of `s`.
  pub record Saved (s : Sys W) : Type 0 where
    pub before : W
    pub file : s.world ≡ h.save before (values s.manager.records)

  pub publish-Cleared :
      (key : Key) (q : Request) (s : Sys W)
      → q.on ≡ false
      → Cleared key s.manager (publish h key q s).1.manager
  unfolding publish
  publish-Cleared key q s off = rw off (off_updates-Cleared key (h.monotonic s.world) s.manager)

  pub publish-Lit :
      (key : Key) (q : Request) (s : Sys W)
      → q.on ≡ true
      → (r : IdentRecord) × (now : ℕ) × (r ≡ new_record h key q now)
        × ((publish h key q s).0 ≡ ok (some r))
        × Lit key r s.manager (publish h key q s).1.manager
  unfolding publish
  publish-Lit key q s on = (
    new_record h key q (h.utc s.world),
    h.utc s.world,
    refl,
    rw on,
    rw on (on_updates-Lit key (new_record h key q (h.utc s.world)) (h.monotonic s.world) s.manager),
  )

  publish-Saved : (key : Key) (q : Request) (s : Sys W) → Saved (publish h key q s).1
  unfolding publish
  publish-Saved key q s = record { before = s.world; file = refl }

  -- How a call that found the dictionaries `m` ends: it has published from a state with these
  -- dictionaries, or it raises and has left them alone.
  pub data Ended (key : Key) (q : Request) (m : Manager)
      (res : Outcome (Option IdentRecord) × Sys W) : Type 0 where
    published : (t : Sys W) → t.manager ≡ m → res ≡ publish h key q t → Ended key q m res
    failed : (e : Exception) → res.0 ≡ raise e → res.1.manager ≡ m → Ended key q m res

  settle_ends :
      (key : Key) (q : Request) (previous verified : Bool) (s : Sys W)
      → Ended key q s.manager (settle h key q previous verified s)
  unfolding settle audit
  settle_ends key q previous verified s = elim (Bool-cases (verified == q.on)) [
    | inl y ↦ rw (y, settle) (published _ refl refl)
    | inr n ↦ rw (n, settle) (failed _ refl refl)
  ]

  attempt_ends :
      (key : Key) (q : Request) (previous : Bool) (s : Sys W)
      → Ended key q s.manager (attempt h key q previous s)
  unfolding attempt audit
  attempt_ends key q previous s = elim (Outcome-cases (h.write s.world key.0 key.1 q.on).0) [
    | inl (v, y) ↦
        rw (y, attempt)
          (settle_ends key q previous v (record s { world = (h.write s.world key.0 key.1 q.on).1 }))
    | inr (e, n) ↦ rw (n, attempt) (failed e refl refl)
  ]

  locked_ends : (key : Key) (q : Request) (s : Sys W) → Ended key q s.manager (locked h key q s)
  unfolding locked
  locked_ends key q s = elim (Outcome-cases (h.read s.world key.0 key.1).0) [
    | inl (v, y) ↦
        rw (y, locked) (attempt_ends key q v (record s { world = (h.read s.world key.0 key.1).1 }))
    | inr (e, n) ↦ rw (n, locked) (failed e refl refl)
  ]

  pub identify_ends :
      (id : Text) (slot : ℤ) (q : Request) (s : Sys W) (key : Key)
      → validate_request (str_value id) (int_value slot) ≡ ok key
      → Ended key q s.manager (identify h id slot q s)
  unfolding identify
  identify_ends id slot q s key v =
      elim (Bool-cases (q.on && not (is_offered q.duration_seconds))) [
        | inl y ↦ rw (v, identify) (rw y (failed _ refl refl))
        | inr n ↦ rw (v, identify) (rw n (locked_ends key q s))
      ]

  pub identify_invalid :
      (id : Text) (slot : ℤ) (q : Request) (s : Sys W) {e : Exception}
      → validate_request (str_value id) (int_value slot) ≡ raise e
      → identify h id slot q s ≡ (raise e, s)
  unfolding identify
  identify_invalid id slot q s v = rw (v, identify) refl

  publish-ne-raise :
      (key : Key) (q : Request) (t : Sys W) {e : Exception} → (publish h key q t).0 ≢ raise e
  unfolding publish
  publish-ne-raise key q t p = cc

  Ended-failure :
      (key : Key) (q : Request) (m : Manager) (res : Outcome (Option IdentRecord) × Sys W)
      (e : Exception)
      → Ended key q m res
      → res.0 ≡ raise e
      → res.1.manager ≡ m
  Ended-failure key q m res e (published t same eq) p =
      absurd (publish-ne-raise key q t (rw eq at p))
  Ended-failure key q m res e (failed x raised same) p = same

  Ended-clears :
      (key : Key) (q : Request) (m : Manager) (res : Outcome (Option IdentRecord) × Sys W)
      (x : Option IdentRecord)
      → q.on ≡ false
      → Ended key q m res
      → res.0 ≡ ok x
      → (x ≡ none) × Cleared key m res.1.manager × Saved res.1
  unfolding publish
  Ended-clears key q m res x off (published t same eq) p = (
    cc,
    subst (λ n. Cleared key n res.1.manager) same (rw eq (publish-Cleared key q t off)),
    rw eq (publish-Saved key q t),
  )
  Ended-clears key q m res x off (failed e raised same) p = cc

  Ended-lights :
      (key : Key) (q : Request) (m : Manager) (res : Outcome (Option IdentRecord) × Sys W)
      (x : Option IdentRecord)
      → q.on ≡ true
      → Ended key q m res
      → res.0 ≡ ok x
      → (r : IdentRecord) × (now : ℕ) × (r ≡ new_record h key q now)
        × (x ≡ some r)
        × Lit key r m res.1.manager
        × Saved res.1
  Ended-lights key q m res x on (published t same eq) p =
      let (r, now, made, returned, lit) = publish-Lit key q t on in
      (
        r,
        now,
        made,
        cc,
        subst (λ n. Lit key r n res.1.manager) same (rw eq lit),
        rw eq (publish-Saved key q t),
      )
  Ended-lights key q m res x on (failed e raised same) p = cc

  -- A call that raises, for whatever reason and at whatever point, leaves the three dictionaries
  -- as they were: no record, retry or stamp of any bay changes.
  pub identify_failure_keeps :
      (id : Text) (slot : ℤ) (q : Request) (s : Sys W) (e : Exception)
      → (identify h id slot q s).0 ≡ raise e
      → (identify h id slot q s).1.manager ≡ s.manager
  identify_failure_keeps id slot q s e p =
      elim (Outcome-cases (validate_request (str_value id) (int_value slot))) [
        | inl (key, v) ↦ Ended-failure key q s.manager _ e (identify_ends id slot q s key v) p
        | inr (x, v) ↦ rw (identify_invalid id slot q s v) refl
      ]

  valid_key :
      (id : Text) (slot : ℤ) (q : Request) (s : Sys W) {x : Option IdentRecord}
      → (identify h id slot q s).0 ≡ ok x
      → (key : Key) × (validate_request (str_value id) (int_value slot) ≡ ok key)
  valid_key id slot q s p =
      elim (Outcome-cases (validate_request (str_value id) (int_value slot))) [
        | inl y ↦ y
        | inr (e, v) ↦ cc (identify_invalid id slot q s v)
      ]

  -- A call that turns a light off and returns has cleared the bay of the validated key, has
  -- changed no other bay, returns no record, and has written the state file with the records.
  pub identify_off_clears :
      (id : Text) (slot : ℤ) (q : Request) (s : Sys W) (x : Option IdentRecord)
      → q.on ≡ false
      → (identify h id slot q s).0 ≡ ok x
      → (key : Key) × (validate_request (str_value id) (int_value slot) ≡ ok key)
        × (x ≡ none)
        × Cleared key s.manager (identify h id slot q s).1.manager
        × Saved (identify h id slot q s).1
  identify_off_clears id slot q s x off p =
      let (key, v) = valid_key id slot q s p in
      let (empty, cleared, saved) =
        Ended-clears key q s.manager _ x off (identify_ends id slot q s key v) p in
      (key, v, empty, cleared, saved)

  -- A call that turns a light on and returns has recorded the request (its user, its expiry,
  -- the origin of the application) for the bay of the validated key, has stamped it lit, has changed no other bay, returns that record, and has
  -- written the state file with the records.
  pub identify_on_lights :
      (id : Text) (slot : ℤ) (q : Request) (s : Sys W) (x : Option IdentRecord)
      → q.on ≡ true
      → (identify h id slot q s).0 ≡ ok x
      → (key : Key) × (r : IdentRecord) × (now : ℕ) × (validate_request
            (str_value id)
            (int_value slot)
          ≡ ok key)
        × (r ≡ new_record h key q now)
        × (x ≡ some r)
        × Lit key r s.manager (identify h id slot q s).1.manager
        × Saved (identify h id slot q s).1
  identify_on_lights id slot q s x on p =
      let (key, v) = valid_key id slot q s p in
      let (r, now, made, returned, lit, saved) =
        Ended-lights key q s.manager _ x on (identify_ends id slot q s key v) p in
      (key, r, now, v, made, returned, lit, saved)
