-- ===== src/Oauth/Protocol/Trusted.antt =====
-- What an accepted authorization request has been checked for.
use kody_celld.Prelude.{
  Bool, true, false, not, ◌||◌, Option, none, some, List, [], ◌∷◌, ◌++◌, Text, codes, same, same→eq,
  contains, ◌≡◌, refl, ap, subst, ◌⊎◌, inl, inr, arith, Bool-cases,
}
use kody_celld.Table.{exists}
use kody_celld.Act.{ok, ok-injective}
use kody_celld.Oauth.Protocol.Redirects.{
  ProtocolError, invalid_request, unsupported_response_type, invalid_target, Url, is_loopback_host,
  is_http_loopback, same_loopback, loopback_matches, redirect_uri_matches,
}
use kody_celld.Results.{passed}
use kody_celld.Oauth.Protocol.Authorize.{
  Params, AuthorizeClient, AuthorizeRequest, present, require, known_client, or_only, is_text,
  text_or, is_long, is_pkce_text, normalize_scope, parse_authorize_request,
}

pub required : (b : Bool) (e : ProtocolError) (u : Unit {0}) → require b e ≡ ok u → b ≡ true
required true e u h = refl
required false e u h = absurd (cc h)

known-some : (o : Option AuthorizeClient) (c : AuthorizeClient) → known_client o ≡ ok c → o ≡ some c
known-some none c h = absurd (cc h)
known-some (some d) c h = ap some (ok-injective d c h)

-- Both URLs are http on one loopback host, with one path and query.
abbrev pub IsSameLoopback : Url → Url → Type 0
IsSameLoopback req reg =
    (req.protocol ≡ codes "http:")
    × (is_loopback_host req.hostname ≡ true)
    × (reg.protocol ≡ codes "http:")
    × (reg.hostname ≡ req.hostname)
    × (reg.pathname ≡ req.pathname)
    × (reg.search ≡ req.search)

module _ (parse_url : Text → Option Url) where
  -- One of the registered URIs agrees with the requested one in host, path and query.
  abbrev pub HasLoopback : Url → List Text → Type 0
  HasLoopback req [] = ⊥
  HasLoopback req (uri ∷ uris) =
      ((reg : Url) × (parse_url uri ≡ some reg) × IsSameLoopback req reg) ⊎ HasLoopback req uris

  -- The requested URI is registered, or both are http on one loopback host, with one path and query.
  abbrev pub IsTrusted : Text → List Text → Type 0
  IsTrusted requested registered =
      (contains requested registered ≡ true)
      ⊎ ((req : Url) × (parse_url requested ≡ some req) × HasLoopback req registered)

  same_loopback-IsSameLoopback :
      (req : Url) (uri : Text) (o : Option Url)
      → parse_url uri ≡ o
      → is_http_loopback req ≡ true
      → same_loopback req o ≡ true
      → (reg : Url) × (parse_url uri ≡ some reg) × IsSameLoopback req reg
  same_loopback-IsSameLoopback req uri none e h k = absurd (cc k)
  same_loopback-IsSameLoopback req uri (some reg) e h k = (
    reg,
    e,
    (
      same→eq req.protocol (codes "http:") (ground (arith, h)),
      ground (arith, h),
      same→eq reg.protocol (codes "http:") (ground (arith, k)),
      same→eq reg.hostname req.hostname (ground (arith, k)),
      same→eq reg.pathname req.pathname (ground (arith, k)),
      same→eq reg.search req.search (ground (arith, k)),
    ),
  )

  some-HasLoopback :
      (req : Url) (registered : List Text)
      → is_http_loopback req ≡ true
      → exists (λ uri. same_loopback req (parse_url uri)) registered ≡ true
      → HasLoopback req registered
  unfolding exists
  some-HasLoopback req [] h k = absurd (cc k)
  some-HasLoopback req (uri ∷ uris) h k = elim (Bool-cases (same_loopback req (parse_url uri))) [
    | inl t ↦ inl (same_loopback-IsSameLoopback req uri (parse_url uri) refl h t)
    | inr f ↦ inr (some-HasLoopback req uris h (ground (arith, k, f)))
  ]

  loopback_matches-IsTrusted :
      (requested : Text) (registered : List Text) (o : Option Url)
      → parse_url requested ≡ o
      → loopback_matches parse_url o registered ≡ true
      → IsTrusted requested registered
  loopback_matches-IsTrusted requested registered none e h = absurd (cc h)
  loopback_matches-IsTrusted requested registered (some req) e h =
      inr (req, e, some-HasLoopback req registered (ground (arith, h)) (ground (arith, h)))

  redirect_uri_matches-IsTrusted :
      (requested : Text) (registered : List Text)
      → redirect_uri_matches parse_url requested registered ≡ true
      → IsTrusted requested registered
  unfolding redirect_uri_matches
  redirect_uri_matches-IsTrusted requested registered h =
      elim (Bool-cases (contains requested registered)) [
        | inl t ↦ inl t
        | inr f ↦
            loopback_matches-IsTrusted requested registered (parse_url requested) refl
              (ground (arith, h, f))
      ]

  -- The request names no resource, the MCP endpoint of this server, or the server itself.
  abbrev pub IsOwnTarget : Option Text → (issuer : Text) → Type 0
  IsOwnTarget target issuer =
      (target ≡ none) ⊎ (target ≡ some (issuer ++ codes "/mcp")) ⊎ (target ≡ some issuer)

  checked-IsOwnTarget :
      (target : Option Text) (issuer : Text)
      → (same (text_or target (issuer ++ codes "/mcp")) (issuer ++ codes "/mcp")
          || same (text_or target (issuer ++ codes "/mcp")) issuer)
        ≡ true
      → IsOwnTarget target issuer
  checked-IsOwnTarget none issuer h = inl refl
  checked-IsOwnTarget (some t) issuer h = elim (Bool-cases (same t (issuer ++ codes "/mcp"))) [
    | inl mcp ↦ inr (inl (ap some (same→eq t (issuer ++ codes "/mcp") mcp)))
    | inr other ↦ inr (inr (ap some (same→eq t issuer (ground (arith, h, other)))))
  ]

  -- The challenge is hashed with SHA-256, or names no method.
  abbrev pub IsHashed : Option Text → Type 0
  IsHashed method = (method ≡ none) ⊎ (method ≡ some (codes "S256"))

  checked-IsHashed :
      (method : Option Text)
      → same (text_or method (codes "S256")) (codes "S256") ≡ true
      → IsHashed method
  checked-IsHashed none h = inl refl
  checked-IsHashed (some t) h = inr (ap some (same→eq t (codes "S256") h))

  abbrev pub Accepts : Params → Option AuthorizeClient → (issuer : Text) → AuthorizeRequest → Type 0
  Accepts get client issuer r =
      (known : AuthorizeClient) × (client ≡ some known)
      × IsTrusted r.redirect_uri known.redirect_uris
      × (is_text (codes "code") (get (codes "response_type")) ≡ true)
      × (is_pkce_text r.code_challenge ≡ true)
      × (not (is_long r.state) ≡ true)
      × IsHashed (get (codes "code_challenge_method"))
      × IsOwnTarget (get (codes "resource")) issuer
      × (r.resource ≡ issuer ++ codes "/mcp")
      × (r.scope ≡ normalize_scope (get (codes "scope")))

  -- An accepted request names a client that is registered and a redirect URI that is one of the
  -- client's, or is http on a loopback host and agrees with one of them in scheme, host, path and
  -- query; it asks for a code, has a PKCE challenge of 43 to 128 unreserved characters with the method
  -- S256 or none, and no state of more than 1024; the resource that it names, if any, is this server or
  -- its MCP endpoint, and it is given that endpoint and the scopes of this server that it names.
  pub authorize_request_trusted :
      (get : Params) (client : Option AuthorizeClient) (issuer : Text) (r : AuthorizeRequest)
      → parse_authorize_request parse_url get client issuer ≡ ok r
      → Accepts get client issuer r
  unfolding parse_authorize_request
  authorize_request_trusted get client issuer r =
      let C = Accepts get client issuer r in
      let challenge_text = get (codes "code_challenge") in
      let method = text_or (get (codes "code_challenge_method")) (codes "S256") in
      let mcp = issuer ++ codes "/mcp" in
      let target = text_or (get (codes "resource")) mcp in
      passed C (present (get (codes "client_id")) invalid_request) _ r (λ id a.
        passed C (known_client client) _ r (λ known b.
          passed C
            (present (or_only (get (codes "redirect_uri")) known.redirect_uris) invalid_request) _ r
            (λ uri c.
              passed C
                (require (redirect_uri_matches parse_url uri known.redirect_uris) invalid_request) _
                r
                (λ u1 d.
                  passed C
                    (require (is_text (codes "code") (get (codes "response_type")))
                      unsupported_response_type)
                    _ r
                    (λ u2 e. passed C (present challenge_text invalid_request) _ r (λ challenge f.
                      passed C (require (is_pkce_text challenge) invalid_request) _ r (λ u3 g.
                        passed C (require (same method (codes "S256")) invalid_request) _ r (λ u4 h.
                          passed C (require (same target mcp || same target issuer) invalid_target)
                            _ r
                            (λ u5 i.
                              passed C
                                (require (not (is_long (get (codes "state")))) invalid_request) _ r
                                (λ u6 j k. subst (Accepts get client issuer) (ok-injective _ r k) (
                                  known,
                                  known-some client known b,
                                  redirect_uri_matches-IsTrusted uri known.redirect_uris
                                      (required _ _ u1 d),
                                  required _ _ u2 e,
                                  required _ _ u3 g,
                                  required _ _ u6 j,
                                  checked-IsHashed (get (codes "code_challenge_method"))
                                      (required _ _ u4 h),
                                  checked-IsOwnTarget (get (codes "resource")) issuer
                                      (required _ _ u5 i),
                                  refl,
                                  refl,
                                )))))))))))
