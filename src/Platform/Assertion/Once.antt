-- ===== src/Platform/Assertion/Once.antt =====
-- pkg/platform/lti/token.go with middleware/replay.go: an assertion that is presented again. The
-- times of the cache are in seconds.
use Prim.Native.String.{◌++◌ as ◌<>◌}
use mindengage_lms.Prelude.{
  ℕ, ℤ, pos, ◌<ℤ◌, add_ℤ, String, Bool, true, false, not, ◌≡◌, refl, sym, ap, ◌∙◌, Option, some,
  List, All, inl, inr, Result, ok, err, required, >>=-eq-ok, fail_if-eq-ok, or_fail, or_fail-eq-ok,
  required-eq-ok, ok_inj, Result-cases, str_eq, if◌then◌else◌,
}
use mindengage_lms.Strings.{Unicode, trim_space, is_empty}
use mindengage_lms.Platform.Replay.{Cache, use_value}
use mindengage_lms.Platform.Replay.SingleUse.{Call, use_call, after_calls, use_value_once}
use mindengage_lms.Platform.Assertion.{
  OAuthClient, Crypto, JwtHeader, JwtClaims, split_jwt, check_claims, check_signature,
  read_assertion, use_jti, is_accepted, verify_client_assertion,
}

some_value : {A : Type 0} {a b : A} → ◌≡◌ {A = Option A} (some a) (some b) → a ≡ b
some_value h = cc

module _ (crypto : Crypto) where
  -- The claims that an assertion carries.
  abbrev pub Carries : String → JwtClaims → Type 0
  Carries assertion c =
      (parts : List ℕ × List ℕ × List ℕ) × (split_jwt crypto assertion ≡ ok parts)
      × (crypto.read_claims parts.1 ≡ some c)

  read_assertion-Carries :
      (now : ℤ) (client : OAuthClient) (assertion audience : String)
      {x : JwtHeader × JwtClaims × List ℕ}
      → read_assertion crypto now client assertion audience ≡ ok x
      → Carries assertion x.1
  unfolding read_assertion
  read_assertion-Carries now client assertion audience h =
      let (parts, p, h1) =
        >>=-eq-ok (or_fail (split_jwt crypto assertion) "malformed client_assertion") _ h in
      let (header, _, h2) =
        >>=-eq-ok (required (crypto.read_header parts.0) "invalid JWT header") _ h1 in
      let (_, h3) = fail_if-eq-ok (not (str_eq header.alg "RS256")) _ _ h2 in
      let (c, e, h4) =
        >>=-eq-ok (required (crypto.read_claims parts.1) "invalid JWT claims") _ h3 in
      let (_, _, h5) = >>=-eq-ok (check_claims now client audience c) _ h4 in
      (
        parts,
        or_fail-eq-ok (split_jwt crypto assertion) _ p,
        required-eq-ok _ _ e ∙ ap (λ x. some x.1) (ok_inj h5),
      )

  same_claims :
      (assertion : String) {c d : JwtClaims} → Carries assertion c → Carries assertion d → c ≡ d
  same_claims assertion (p, e, f) (q, g, h) =
      some_value (sym f ∙ ap (λ parts. crypto.read_claims parts.1) (ok_inj (sym e ∙ g)) ∙ h)

module _ (u : Unicode) (crypto : Crypto) where
  -- The use of the cache that an assertion of the client makes, at a time of the cache.
  abbrev pub call_of : ℤ → OAuthClient → JwtClaims → Call
  call_of t client c = record {
    now = t;
    kind = "pkjwt_jti:" <> client.client_id;
    value = c.jti;
    ttl = pos 900;
  }

  -- The verification with the cache, at the second `now` and at the time `t` of the cache.
  abbrev pub verify_at :
      ℤ → ℤ → OAuthClient → (assertion audience : String) → Cache → Result String (Unit {0}) × Cache
  verify_at now t = verify_client_assertion crypto (some (use_value u t)) now

  verify_at-eq :
      (now t : ℤ) (client : OAuthClient) (assertion audience : String) (cache : Cache)
      {h : JwtHeader} {c : JwtClaims} {sig : List ℕ}
      → read_assertion crypto now client assertion audience ≡ ok (h, c, sig)
      → is_empty (trim_space c.jti) ≡ false
      → verify_at now t client assertion audience cache ≡ (
        if is_accepted (use_call u (call_of t client c) cache).0
            then check_signature crypto client h.kid assertion sig
            else err "assertion replay detected",
        (use_call u (call_of t client c) cache).1,
      )
  unfolding verify_client_assertion use_jti
  verify_at-eq now t client assertion audience cache r e = rw (verify_client_assertion, r, e) refl

  accepted :
      (m : Result String Bool) (k : Result String (Unit {0})) (e : String)
      → (if is_accepted m then k else err e) ≡ ok tt
      → m ≡ ok true
  accepted (ok true) k e h = refl
  accepted (ok false) k e h = cc
  accepted (err _) k e h = cc

  verify_at-err :
      (now t : ℤ) (client : OAuthClient) (assertion audience : String) (cache : Cache) {e : String}
      → read_assertion crypto now client assertion audience ≡ err e
      → (verify_at now t client assertion audience cache).0 ≡ err e
  unfolding verify_client_assertion
  verify_at-err now t client assertion audience cache r = rw (verify_client_assertion, r) refl

  module _ (now t : ℤ) (client : OAuthClient) (assertion audience : String) (c : JwtClaims)
      (cache : Cache) (k : Carries crypto assertion c)
      (n : is_empty (trim_space c.jti) ≡ false) where
    -- An assertion that is accepted has made a use of the cache that was accepted.
    verify_at_uses :
        (verify_at now t client assertion audience cache).0 ≡ ok tt
        → ((use_call u (call_of t client c) cache).0 ≡ ok true)
          × ((verify_at now t client assertion audience cache).1
              ≡ (use_call u (call_of t client c) cache).1)
    verify_at_uses h = elim (Result-cases (read_assertion crypto now client assertion audience)) [
      | inr (e, r) ↦ absurd (cc (verify_at-err now t client assertion audience cache r))
      | inl ((hd, d, sig), r) ↦
          let same =
            same_claims crypto assertion
              (read_assertion-Carries crypto now client assertion audience r) k in
          let eq =
            verify_at-eq now t client assertion audience cache r
              (ap (λ x. is_empty (trim_space x.jti)) same ∙ n) in
          (
            ap (λ x. (use_call u (call_of t client x) cache).0) (sym same)
                ∙ accepted _ _ _ (sym (ap (λ p. p.0) eq) ∙ h),
            ap (λ p. p.1) eq ∙ ap (λ x. (use_call u (call_of t client x) cache).1) same,
          )
    ]

    -- Where its use is refused, so is the assertion.
    verify_at_refuses :
        (use_call u (call_of t client c) cache).0 ≡ ok false
        → (e : String) × ((verify_at now t client assertion audience cache).0 ≡ err e)
    verify_at_refuses h =
        elim (Result-cases (read_assertion crypto now client assertion audience)) [
          | inr (e, r) ↦ (e, verify_at-err now t client assertion audience cache r)
          | inl ((hd, d, sig), r) ↦
              let same =
                same_claims crypto assertion
                  (read_assertion-Carries crypto now client assertion audience r) k in
              let eq =
                verify_at-eq now t client assertion audience cache r
                  (ap (λ x. is_empty (trim_space x.jti)) same ∙ n) in
              let used = ap (λ x. (use_call u (call_of t client x) cache).0) same ∙ h in
              ("assertion replay detected", ap (λ p. p.0) eq ∙ rw used refl)
        ]

  -- An assertion with an id that was accepted from a client, with a cache of used ids, is accepted
  -- no more before the 15 minutes are over: whatever uses of the cache come between, before that
  -- time, presenting it again for the same client is an error.
  pub verify_client_assertion_once :
      (now t now' t' : ℤ) (client : OAuthClient) (assertion audience audience' : String)
      (c : JwtClaims) (between : List Call) (cache : Cache)
      → Carries crypto assertion c
      → is_empty (trim_space c.jti) ≡ false
      → (verify_at now t client assertion audience cache).0 ≡ ok tt
      → All (λ (call : Call). call.now <ℤ add_ℤ t (pos 900)) between
      → t' <ℤ add_ℤ t (pos 900)
      → (e : String) × ((verify_at now' t' client assertion audience'
            (after_calls u between (verify_at now t client assertion audience cache).1)).0
          ≡ err e)
  verify_client_assertion_once now t now' t' client assertion audience audience' c between cache k n
        h b l =
      let (used, left) = verify_at_uses now t client assertion audience c cache k n h in
      verify_at_refuses now' t' client assertion audience' c
        (after_calls u between (verify_at now t client assertion audience cache).1) k n
        (ap (λ x. (use_call u (call_of t' client c) (after_calls u between x)).0) left
          ∙ use_value_once u (call_of t client c) (call_of t' client c) between cache refl used b l)
