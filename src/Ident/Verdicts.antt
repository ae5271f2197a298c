-- ===== src/Ident/Verdicts.antt =====
-- What `describe` says of a bay after a write of ours, for every observation of it.
use ktn_enclosure_manager.Common.{
  ℕ, ℤ, ◌≡◌, Bool, true, false, Option, some, arith, ltb, leb, ◌&&◌, ◌||◌, list_eq, nat_eq, pair_eq,
  int_eq, if◌then◌else◌, subst,
}
use ktn_enclosure_manager.Common.Text.{Text, lower}
use ktn_enclosure_manager.Errors.{ok}
use ktn_enclosure_manager.Locate.Request.{int_value, str_value, validate_request}
use ktn_enclosure_manager.Ident.State.{
  IdentRecord, Manager, settled, record_for, describe, describe_over, foreign, dark, lit_by,
}
use ktn_enclosure_manager.Ident.Host.{Host, Sys}
use ktn_enclosure_manager.Ident.Identify.{Request, identify}
use ktn_enclosure_manager.Ident.Effects.{Cleared, Lit, identify_off_clears, identify_on_lights}

Cleared-verdict :
    (id : Text) (slot : ℤ) (m m' : Manager) (c : Cleared (lower id, slot) m m') (on : Bool)
    (seen : ℕ)
    → describe m' id slot on seen ≡ (if on && ltb c.stamped_at seen then foreign else dark)
unfolding describe describe_over settled record_for
Cleared-verdict id slot m m' c on seen = ground (arith, c.stamped, c.no_record)

Lit-verdict :
    (id : Text) (slot : ℤ) (r : IdentRecord) (m m' : Manager) (c : Lit (lower id, slot) r m m')
    (on : Bool) (seen : ℕ)
    → describe m' id slot on seen ≡ (if on || leb seen c.stamped_at then lit_by (some r) else dark)
unfolding describe describe_over settled record_for
Lit-verdict id slot r m m' c on seen = ground (arith, c.stamped, c.recorded)

module _ {W : Type 0} (h : Host W) (id : Text) (slot : ℤ) (q : Request) (s : Sys W) where
  -- After a clear that returned there is an instant such that the bay is called external for
  -- exactly the lit observations younger than that instant, and dark for every other.
  pub verdict_after_off :
      (x : Option IdentRecord)
      → validate_request (str_value id) (int_value slot) ≡ ok (lower id, slot)
      → q.on ≡ false
      → (identify h id slot q s).0 ≡ ok x
      → (at : ℕ) × ((on : Bool) (seen : ℕ)
          → describe (identify h id slot q s).1.manager id slot on seen
            ≡ (if on && ltb at seen then foreign else dark))
  verdict_after_off x valid off p =
      let (key, v, empty, cleared, saved) = identify_off_clears h id slot q s x off p in
      let same : key ≡ (lower id, slot) = cc in
      let c : Cleared (lower id, slot) s.manager (identify h id slot q s).1.manager =
        subst (λ k. Cleared k s.manager (identify h id slot q s).1.manager) same cleared in
      (c.stamped_at, Cleared-verdict id slot s.manager _ c)

  -- After a light that returned there is an instant such that the bay is attributed to the
  -- recorded request for every lit observation and for every one not younger than that instant,
  -- and is dark for the others.
  pub verdict_after_on :
      (x : Option IdentRecord)
      → validate_request (str_value id) (int_value slot) ≡ ok (lower id, slot)
      → q.on ≡ true
      → (identify h id slot q s).0 ≡ ok x
      → (at : ℕ) × (r : IdentRecord) × (x ≡ some r)
        × ((on : Bool) (seen : ℕ)
            → describe (identify h id slot q s).1.manager id slot on seen
              ≡ (if on || leb seen at then lit_by (some r) else dark))
  verdict_after_on x valid on p =
      let (key, r, now, v, made, returned, lit, saved) = identify_on_lights h id slot q s x on p in
      let same : key ≡ (lower id, slot) = cc in
      let c : Lit (lower id, slot) r s.manager (identify h id slot q s).1.manager =
        subst (λ k. Lit k r s.manager (identify h id slot q s).1.manager) same lit in
      (c.stamped_at, r, returned, Lit-verdict id slot r s.manager _ c)
