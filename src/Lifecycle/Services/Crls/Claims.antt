-- ===== src/Lifecycle/Services/Crls/Claims.antt =====
-- service.go, claimCRLGeneration: the number that a claim reserves, and that one claim holds at a time.
use ano_pki_community.Common.{
  String, ◌≡◌, refl, inl, inr, Bool-cases, List, [], ◌∷◌, ◌==◌, eq_iff, ◌&&◌, ℕ, ℤ, ◌+◌, ◌*◌,
  minute, ◌<◌, ◌≤◌, arith, All, ltb_int64, Less, max_int64, increment-pos, Bool, false, sym, subst,
  Result, true, after, ltb_iff, Time, some, lookup, insert, lookup-insert_self, lookup-id, IsKeyed,
  Option-cases, ok, err, Error,
}
use ano_pki_community.Domain.{CrlPublication, CrlGenerationClaim}
use ano_pki_community.Store.Crls.{
  crl_generation_claim_key, same_claim, list_crl_publications_by_issuer as of_issuer,
  get_crl_generation_claim as get_claim, create_crl_generation_claim as create_claim,
  update_crl_generation_claim_if_current as update_claim,
}
use ano_pki_community.Store.State.{within_tx, written}
use ano_pki_community.Store.Repository.{
  list_crl_publications_by_issuer, get_crl_generation_claim, create_crl_generation_claim,
  update_crl_generation_claim_if_current,
}
use ano_pki_community.Lifecycle.World.{World, in_tx, bound, guard}
use ano_pki_community.Lifecycle.Services.Crls.{
  max_number, next_crl_number, claim_crl_generation, default_crl_generation_lease,
}

-- The key under which a claim is stored.
abbrev pub claim_key : CrlGenerationClaim → String
claim_key c = crl_generation_claim_key c.issuer_id c.distribution_point

-- A publication of the distribution point has a number below a bound.
abbrev pub NumberBelow : String → ℤ → CrlPublication → Type 0
NumberBelow dp bound p = p.distribution_point ≡ dp → Less p.crl_number bound

-- What the loop ends with, from `n` on: `m`, which is not less than `n` nor than any number of the
-- distribution point, and is less than the greatest int64.
abbrev Covers : ℕ → List CrlPublication → String → ℕ → Type 0
Covers n ps dp m =
    (max_number (ℤ.pos n) ps dp ≡ ℤ.pos m)
    × (n ≤ m)
    × All (NumberBelow dp (ℤ.pos (m + 1))) ps
    × (m < max_int64)

greater_pos : (n : ℕ) (x : ℤ) → ltb_int64 (ℤ.pos n) x ≡ true → (k : ℕ) × (x ≡ ℤ.pos k) × (n < k)
greater_pos n (ℤ.pos k) h = (k, refl, ground arith)
greater_pos n (ℤ.negsuc k) h = cc

not_above : (n m : ℕ) (x : ℤ) → ltb_int64 (ℤ.pos n) x ≡ false → n ≤ m → Less x (ℤ.pos (m + 1))
not_above n m (ℤ.pos k) h l = ground arith
not_above n m (ℤ.negsuc k) h l = tt

and_true : (a b : Bool) → (a && b) ≡ true → (a ≡ true) × (b ≡ true)
and_true a b h = ground arith

and_false : (a b : Bool) → (a && b) ≡ false → a ≡ true → b ≡ false
and_false a b h e = ground arith

max_number-Covers :
    (n : ℕ) (ps : List CrlPublication) (dp : String)
    → n < max_int64
    → All (NumberBelow dp (ℤ.pos max_int64)) ps
    → (m : ℕ) × Covers n ps dp m
unfolding max_number
max_number-Covers n [] dp small below = (n, (refl, omega arith, tt, small))
max_number-Covers n (p ∷ ps) dp small below =
    elim (Bool-cases (p.distribution_point == dp && ltb_int64 (ℤ.pos n) p.crl_number)) [
      | inl e ↦
          let (here_, greater) = and_true _ _ e in
          let (k, at, more) = greater_pos n p.crl_number greater in
          let room : k < max_int64 =
            subst (λ x. Less x (ℤ.pos max_int64)) at
              (below.0 ((eq_iff p.distribution_point dp).0 here_)) in
          let (m, (found, up, all, bounded)) = max_number-Covers k ps dp room below.1 in
          (
            m,
            (
              rw (e, at) found,
              omega (arith, up, more),
              ((λ q. subst (λ x. Less x (ℤ.pos (m + 1))) (sym at) (omega (arith, up))), all),
              bounded,
            ),
          )
      | inr e ↦
          let (m, (found, up, all, bounded)) = max_number-Covers n ps dp small below.1 in
          (
            m,
            (
              rw e found,
              up,
              (
                (λ q.
                    not_above n m p.crl_number
                      (and_false _ _ e ((eq_iff p.distribution_point dp).1 q)) up),
                all,
              ),
              bounded,
            ),
          )
    ]

-- The next CRL number of a distribution point is greater than that of every publication there.
next_crl_number-NumberBelow :
    (ps : List CrlPublication) (dp : String)
    → All (NumberBelow dp (ℤ.pos max_int64)) ps
    → All (NumberBelow dp (next_crl_number ps dp)) ps
unfolding next_crl_number
next_crl_number-NumberBelow ps dp below =
    let (m, (found, up, all, bounded)) = max_number-Covers 0 ps dp (omega arith) below in
    rw (found, increment-pos m bounded) all

-- While a claim's lease runs, every other claim on the same distribution point is refused, and the
-- store stays as it is.
pub claim_crl_generation_refused :
    (issuer_id dp : String) (now : Time) (w : World) (held : CrlGenerationClaim)
    → lookup (crl_generation_claim_key issuer_id dp) w.store.crl_claims ≡ some held
    → now < held.lease_expires_at
    → claim_crl_generation issuer_id dp now w ≡ (err Error.invalid_transition, w)
unfolding bound guard written claim_crl_generation in_tx within_tx list_crl_publications_by_issuer
    get_crl_generation_claim get_claim
claim_crl_generation_refused issuer_id dp now w held k l =
    rw (k, (ltb_iff now held.lease_expires_at).1 l) refl

-- What a claim reserves when it is got: the next number, five minutes, and the entry in the map.
abbrev Reserved : String → String → Time → World → Result CrlGenerationClaim × World → Type 0
Reserved issuer_id dp now w (ok c, w') =
    (c.crl_number ≡ next_crl_number (of_issuer w.store.crls issuer_id) dp)
    × (c.lease_expires_at ≡ now + default_crl_generation_lease)
    × (lookup (crl_generation_claim_key issuer_id dp) w'.store.crl_claims ≡ some c)
Reserved issuer_id dp now w (err e, w') = Unit {0}

same_claim_refl : (c : CrlGenerationClaim) → same_claim c c ≡ true
same_claim_refl c = ground arith

claim_crl_generation-Reserved :
    (issuer_id dp : String) (now : Time) (w : World)
    → IsKeyed claim_key w.store.crl_claims
    → Reserved issuer_id dp now w (claim_crl_generation issuer_id dp now w)
unfolding bound guard written claim_crl_generation in_tx within_tx list_crl_publications_by_issuer
    get_crl_generation_claim get_claim create_crl_generation_claim create_claim
    update_crl_generation_claim_if_current update_claim
claim_crl_generation-Reserved issuer_id dp now w keyed =
    let key = crl_generation_claim_key issuer_id dp in
    elim (Option-cases (lookup key w.store.crl_claims)) [
      | inl e ↦ rw (e, e) (refl, refl, lookup-insert_self key _ w.store.crl_claims)
      | inr (held, e) ↦ elim (Bool-cases (after held.lease_expires_at now)) [
        | inl running ↦ rw (e, running) tt
        | inr over ↦
            let own = lookup-id claim_key key held w.store.crl_claims keyed e in
            let found = subst (λ j. lookup j w.store.crl_claims ≡ some held) own e in
            let next : CrlGenerationClaim = record held {
              crl_number = next_crl_number (of_issuer w.store.crls issuer_id) dp;
              lease_expires_at = now + default_crl_generation_lease;
              updated_at = now;
            } in
            rw (e, over, found, same_claim_refl held)
              (
                refl,
                refl,
                subst (λ j. lookup key (insert j next w.store.crl_claims) ≡ some next) own
                    (lookup-insert_self key next w.store.crl_claims),
              )
      ]
    ]

-- A claim that is got holds a number greater than that of every publication of its distribution
-- point, for five minutes. Until then every further claim there is refused and changes nothing.
-- The map of claims has each claim under its own key, and no publication there has the greatest int64
-- as its number.
pub claim_crl_generation_lem :
    (issuer_id dp : String) (now : Time) (w w' : World) (claim : CrlGenerationClaim)
    → IsKeyed claim_key w.store.crl_claims
    → All (NumberBelow dp (ℤ.pos max_int64)) (of_issuer w.store.crls issuer_id)
    → claim_crl_generation issuer_id dp now w ≡ (ok claim, w')
    → All (NumberBelow dp claim.crl_number) (of_issuer w.store.crls issuer_id)
      × (claim.lease_expires_at ≡ now + 5 * minute)
      × ((later : Time)
          → later < now + 5 * minute
          → claim_crl_generation issuer_id dp later w' ≡ (err Error.invalid_transition, w'))
claim_crl_generation_lem issuer_id dp now w w' claim keyed below h =
    let (number, lease, stored) =
      subst (Reserved issuer_id dp now w) h
        (claim_crl_generation-Reserved issuer_id dp now w keyed) in
    (
      rw number (next_crl_number-NumberBelow (of_issuer w.store.crls issuer_id) dp below),
      lease,
      λ later l.
          claim_crl_generation_refused issuer_id dp later w' claim stored (omega (arith, lease, l)),
    )
