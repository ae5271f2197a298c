-- ===== src/Polling/Honest.antt =====
-- Which SAS addresses and which telemetry `poll_chassis` of backend/ktnmgr/services/state.py leaves.
use ktn_enclosure_manager.Common.{
  ℕ, true, false, none, some, List, [], ◌∷◌, ◌++◌, ◌≡◌, refl, ◌⊎◌, inl, inr, ◌∙◌, sym, ap, arith,
  if◌then◌else◌, ◌==◌, nat_eq, list_eq, ==→≡, Bool-cases, some-injective,
}
use ktn_enclosure_manager.Common.Dict.{Dict, get, put, pop, get-put, get-pop}
use ktn_enclosure_manager.Common.Text.{Text, codes}
use ktn_enclosure_manager.Locate.Plan.{is_absent}
use ktn_enclosure_manager.Sysfs.Scan.{EnclosureRef}
use ktn_enclosure_manager.Polling.Addresses.{slot_sas_addresses}
use ktn_enclosure_manager.Polling.Cached.{Clock}
use ktn_enclosure_manager.Polling.Chassis.{
  Round, page_failed, addresses_read, addresses_failed, telemetry_read, conclude_addresses,
  conclude_join, conclude_configuration, poll_enclosure, poll_enclosures, store_round, first_round,
  poll_chassis,
}
use ktn_enclosure_manager.Polling.Runner.{Page, output, unread, Runner}
use ktn_enclosure_manager.Polling.Service.{Service}

-- No enclosure of the list has the id.
abbrev pub Absent : Text → List EnclosureRef → Type 0
Absent id [] = Unit
Absent id (ref ∷ refs) = ((ref.logical_id == id) ≡ false) × Absent id refs

not_empty : (id : Text) (d : Dict ℕ Text) → get {K = Text} {V = Dict ℕ Text} id [] ≡ some d → ⊥
unfolding get
not_empty id d h = absurd (cc h)

module _ {W : Type 0} (k : Clock W) (runner : Runner W) where
  -- The addresses are those of a configuration page and an additional element status page that the
  -- runner reads from the enclosure, with the joined page between the two, from the world `w` on.
  pub record IsServed (ref : EnclosureRef) (id : Text) (d : Dict ℕ Text) (w : W) : Type 0 where
    pub same : ref.logical_id ≡ id
    pub configuration : Text
    pub configured : W
    pub read_configuration :
        runner.read_for ref (codes "configuration") w ≡ (output configuration, configured)
    pub joined : Text
    pub later : W
    pub read_joined : runner.read_for ref (codes "join") configured ≡ (output joined, later)
    pub aes : Text
    pub after : W
    pub read_aes :
        runner.read_for ref (codes "additional_element_status") later ≡ (output aes, after)
    pub served : slot_sas_addresses configuration aes ≡ d

  -- An enclosure of the list has the id, and the addresses are of the pages read when the loop over the
  -- list, from the round `r` and the world `w` on, comes to it.
  pub record IsRead (refs : List EnclosureRef) (r : Round) (w : W) (id : Text) (d : Dict ℕ Text)
      : Type 0 where
    pub front : List EnclosureRef
    pub ref : EnclosureRef
    pub back : List EnclosureRef
    pub attached : refs ≡ front ++ ref ∷ back
    pub pages : IsServed ref id d (poll_enclosures k runner front r w).1

  -- What a round leaves for an id.
  abbrev Left : Text → Dict ℕ Text → Round → EnclosureRef → W → Type 0
  Left id d r ref w =
      IsServed ref id d w ⊎ (((ref.logical_id == id) ≡ false) × (get id r.addresses ≡ some d))

  popped-Left :
      (id : Text) (d : Dict ℕ Text) (r : Round) (ref : EnclosureRef) (w : W)
      → get id (pop ref.logical_id r.addresses) ≡ some d
      → Left id d r ref w
  popped-Left id d r ref w h =
      split (Bool-cases (ref.logical_id == id)) (sym (get-pop ref.logical_id id r.addresses) ∙ h)
    where
      split :
          ((ref.logical_id == id) ≡ true) ⊎ ((ref.logical_id == id) ≡ false)
          → (if ref.logical_id == id then none else get id r.addresses) ≡ some d
          → Left id d r ref w
      split (inl same) e = absurd (cc (rw same at e))
      split (inr other) e = inr (other, rw other at e)

  put-Left :
      (id : Text) (d e : Dict ℕ Text) (r : Round) (ref : EnclosureRef) (w : W)
      → (ref.logical_id ≡ id → e ≡ d → IsServed ref id d w)
      → get id (put ref.logical_id e r.addresses) ≡ some d
      → Left id d r ref w
  put-Left id d e r ref w read h =
      split (Bool-cases (ref.logical_id == id)) (sym (get-put ref.logical_id id e r.addresses) ∙ h)
    where
      split :
          ((ref.logical_id == id) ≡ true) ⊎ ((ref.logical_id == id) ≡ false)
          → (if ref.logical_id == id then some e else get id r.addresses) ≡ some d
          → Left id d r ref w
      split (inl same) f = inl (read (==→≡ ref.logical_id id same) (some-injective (rw same at f)))
      split (inr other) f = inr (other, rw other at f)

  -- The additional element status page of an enclosure whose other pages were read.
  aes-Left :
      (id : Text) (d : Dict ℕ Text) (r : Round) (ref : EnclosureRef) (cf joined : Text)
      (w w' w'' : W) (o : Page × W)
      → runner.read_for ref (codes "configuration") w ≡ (output cf, w')
      → runner.read_for ref (codes "join") w' ≡ (output joined, w'')
      → runner.read_for ref (codes "additional_element_status") w'' ≡ o
      → get id (conclude_addresses k runner ref cf r o).0.addresses ≡ some d
      → Left id d r ref w
  unfolding conclude_addresses addresses_read addresses_failed
  aes-Left id d r ref cf joined w w' w'' (output page, after) read join now h =
      put-Left id d (slot_sas_addresses cf page) r ref w
        (λ same served. record {
          same = same;
          configuration = cf;
          configured = w';
          read_configuration = read;
          joined = joined;
          later = w'';
          read_joined = join;
          aes = page;
          after = after;
          read_aes = now;
          served = served;
        })
        h
  aes-Left id d r ref cf joined w w' w'' (unread e, after) read join now h =
      popped-Left id d r ref w h

  join-Left :
      (id : Text) (d : Dict ℕ Text) (r : Round) (ref : EnclosureRef) (cf : Text) (w w' : W)
      (o : Page × W)
      → runner.read_for ref (codes "configuration") w ≡ (output cf, w')
      → runner.read_for ref (codes "join") w' ≡ o
      → get id (conclude_join k runner ref cf r o).0.addresses ≡ some d
      → Left id d r ref w
  unfolding conclude_join page_failed telemetry_read
  join-Left id d r ref cf w w' (output page, w'') read now h =
      aes-Left id d (telemetry_read k runner ref.logical_id cf page w'' r) ref cf page w w' w'' _
        read now refl h
  join-Left id d r ref cf w w' (unread e, w'') read now h = popped-Left id d r ref w h

  configuration-Left :
      (id : Text) (d : Dict ℕ Text) (r : Round) (ref : EnclosureRef) (w : W) (o : Page × W)
      → runner.read_for ref (codes "configuration") w ≡ o
      → get id (conclude_configuration k runner ref r o).0.addresses ≡ some d
      → Left id d r ref w
  unfolding conclude_configuration page_failed
  configuration-Left id d r ref w (output cf, w') now h = join-Left id d r ref cf w w' _ now refl h
  configuration-Left id d r ref w (unread e, w') now h = popped-Left id d r ref w h

  enclosure-Left :
      (id : Text) (d : Dict ℕ Text) (r : Round) (ref : EnclosureRef) (w : W)
      → get id (poll_enclosure k runner ref r w).0.addresses ≡ some d
      → Left id d r ref w
  unfolding poll_enclosure
  enclosure-Left id d r ref w h = split (Bool-cases (is_absent ref.sg_device)) h
    where
      split :
          (is_absent ref.sg_device ≡ true) ⊎ (is_absent ref.sg_device ≡ false)
          → get id (poll_enclosure k runner ref r w).0.addresses ≡ some d
          → Left id d r ref w
      split (inl gone) e = popped-Left id d r ref w (rw gone at e)
      split (inr there) e = configuration-Left id d r ref w _ refl (rw there at e)

  IsRead-later :
      (id : Text) (d : Dict ℕ Text) (ref : EnclosureRef) (refs : List EnclosureRef) (r : Round)
      (w : W)
      → IsRead refs (poll_enclosure k runner ref r w).0 (poll_enclosure k runner ref r w).1 id d
      → IsRead (ref ∷ refs) r w id d
  unfolding poll_enclosures
  IsRead-later id d ref refs r w i = record {
    front = ref ∷ i.front;
    ref = i.ref;
    back = i.back;
    attached = ap (λ l. ref ∷ l) i.attached;
    pages = i.pages;
  }

  IsRead-first :
      (id : Text) (d : Dict ℕ Text) (ref : EnclosureRef) (refs : List EnclosureRef) (r : Round)
      (w : W)
      → IsServed ref id d w
      → IsRead (ref ∷ refs) r w id d
  unfolding poll_enclosures
  IsRead-first id d ref refs r w i = record {
    front = [];
    ref = ref;
    back = refs;
    attached = refl;
    pages = i;
  }

  enclosures-Left :
      (id : Text) (d : Dict ℕ Text) (refs : List EnclosureRef) (r : Round) (w : W)
      → get id (poll_enclosures k runner refs r w).0.addresses ≡ some d
      → IsRead refs r w id d ⊎ (Absent id refs × (get id r.addresses ≡ some d))
  unfolding poll_enclosures
  enclosures-Left id d [] r w h = inr (tt, h)
  enclosures-Left id d (ref ∷ refs) r w h =
      elim (enclosures-Left id d refs _ (poll_enclosure k runner ref r w).1 h) [
        | inl read ↦ inl (IsRead-later id d ref refs r w read)
        | inr (absent, e) ↦ elim (enclosure-Left id d r ref w e) [
          | inl read ↦ inl (IsRead-first id d ref refs r w read)
          | inr (other, before) ↦ inr ((other, absent), before)
        ]
      ]

  store_round-addresses :
      (id : Text) (d : Dict ℕ Text) (r : Round) (s : Service) (w : W)
      → get id (store_round k r s w).sas_by_slot ≡ some d
      → get id r.addresses ≡ some d
  unfolding store_round get
  store_round-addresses id d r s w h = ground arith

  -- The addresses of an enclosure after a poll are those of a configuration page and an additional
  -- element status page that this poll has read from an enclosure of the list with its id, when it came
  -- to it; or no enclosure of the list has the id and they are the ones from before.
  pub poll_chassis_addresses :
      (id : Text) (d : Dict ℕ Text) (s : Service) (w : W)
      → get id (poll_chassis k runner s w).0.sas_by_slot ≡ some d
      → IsRead s.enclosures.value (first_round s) w id d
        ⊎ (Absent id s.enclosures.value × (get id s.sas_by_slot ≡ some d))
  unfolding poll_chassis
  poll_chassis_addresses id d s w h = split (Bool-cases (runner.available w)) h
    where
      split :
          (runner.available w ≡ true) ⊎ (runner.available w ≡ false)
          → get id (poll_chassis k runner s w).0.sas_by_slot ≡ some d
          → IsRead s.enclosures.value (first_round s) w id d
            ⊎ (Absent id s.enclosures.value × (get id s.sas_by_slot ≡ some d))
      split (inl there) e =
          enclosures-Left id d s.enclosures.value (first_round s) w
            (store_round-addresses id d _ s _ (rw there at e))
      split (inr gone) e = absurd (not_empty id d (rw gone at e))
