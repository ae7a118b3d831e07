-- ===== src/Audit/Chained.antt =====
-- Which chains `verifyAuditChain` of packages/audit/src/audit-chain.ts accepts.
use trust_core.Common.{
  eq_iff, string_eq, number_eq, option_eq, String, ◌≡◌, refl, ◌↔◌, Bool, true, List, [], ◌∷◌, ◌++◌,
  map, arith,
}
use trust_core.Audit.{
  AuditEventBody, ChainedAuditEvent, append_audit_event, verify_from, verify_audit_chain,
}

-- The hash that the next event is chained to.
abbrev pub last_hash : String → List ChainedAuditEvent → String
last_hash previous [] = previous
last_hash previous (e ∷ events) = last_hash e.event_hash events

module _ (quote : String → String) (before : String → String → Bool)
    (sha256 : String → String) where
  -- The bodies appended one after another.
  abbrev pub appended : String → List AuditEventBody → List ChainedAuditEvent
  appended previous [] = []
  appended previous (b ∷ bodies) =
      let e = append_audit_event quote before sha256 b previous in e ∷ appended e.event_hash bodies

  verify_from-appended :
      (previous : String) (events : List ChainedAuditEvent)
      → (verify_from quote before sha256 previous events ≡ true)
        ↔ (events ≡ appended previous (map (λ e. e.body) events))
  unfolding verify_from append_audit_event
  verify_from-appended previous [] = (λ h. refl, λ h. refl)
  verify_from-appended previous (e ∷ events) =
      let made = (append_audit_event quote before sha256 e.body previous).event_hash in
      let (into, back) = verify_from-appended e.event_hash events in
      let named = eq_iff e.previous_event_hash previous in
      let hashed = eq_iff made e.event_hash in
      (λ h. ground (arith, named, hashed, into, h), λ h. ground (arith, named, hashed, back, h))

  -- A chain is accepted exactly when it is what appending its bodies one after another, from no
  -- hash, gives.
  pub verify_audit_chain_iff :
      (events : List ChainedAuditEvent)
      → (verify_audit_chain quote before sha256 events ≡ true)
        ↔ (events ≡ appended "" (map (λ e. e.body) events))
  unfolding verify_audit_chain
  verify_audit_chain_iff events = verify_from-appended "" events

  verify_from-append :
      (previous : String) (events : List ChainedAuditEvent) (body : AuditEventBody)
      → verify_from quote before sha256 previous events ≡ true
      → verify_from quote before sha256 previous
          (events ++ append_audit_event quote before sha256 body (last_hash previous events) ∷ [])
        ≡ true
  unfolding verify_from append_audit_event
  verify_from-append previous [] body h = ground (
    arith,
    (eq_iff previous previous).1 refl,
    eq_iff (append_audit_event quote before sha256 body previous).event_hash
        (append_audit_event quote before sha256 body previous).event_hash,
  )
  verify_from-append previous (e ∷ events) body h =
      ground (arith, h, verify_from-append e.event_hash events body)

  -- An event that is appended to an accepted chain with the hash of its last event gives an accepted
  -- chain.
  pub verify_audit_chain-append_audit_event :
      (events : List ChainedAuditEvent) (body : AuditEventBody)
      → verify_audit_chain quote before sha256 events ≡ true
      → verify_audit_chain quote before sha256
          (events ++ append_audit_event quote before sha256 body (last_hash "" events) ∷ [])
        ≡ true
  unfolding verify_audit_chain
  verify_audit_chain-append_audit_event events body h = verify_from-append "" events body h
