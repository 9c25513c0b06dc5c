-- ===== src/Oauth/Protocol/Registered.antt =====
-- What an accepted registration has been checked for.
use kody_celld.Prelude.{
  suc, ◌≤◌, true, false, Option, none, some, List, [], ◌∷◌, Text, codes, same, same_refl, length,
  All, ◌≡◌, ◌≢◌, ne_of_same, refl, ap, subst, ◌∙◌, arith, inl, inr, Bool-cases,
}
use kody_celld.Table.{exists}
use kody_celld.Act.{ok, ok-injective}
use kody_celld.Json.{
  Json, JsonEntries, no_items, item, null, fractional, boolean, integral, string, array, object,
  items, field,
}
use kody_celld.Oauth.Defs.{GrantType, Registration}
use kody_celld.Oauth.Protocol.Redirects.{
  Url, is_loopback_host, is_truthy, check_redirect, validate_redirect_uri,
}
use kody_celld.Oauth.Protocol.Metadata.{
  read_string, read_http_url, items_or, redirect_items, read_method, read_grants, is_code_grant,
  require_code_grant, check_response_types, trimmed, name_or_host, validate_each, registration_of,
  parse_client_registration,
}
use kody_celld.Results.{passed}

-- No fragment, no credentials, none of three schemes, and http on loopback only.
abbrev pub IsSafeUrl : Url → Type 0
IsSafeUrl url =
    (url.hash ≡ [])
    × (url.username ≡ [])
    × (url.password ≡ [])
    × (url.protocol ≡ codes "http:" → is_loopback_host url.hostname ≡ true)
    × (url.protocol ≢ codes "javascript:")
    × (url.protocol ≢ codes "data:")
    × (url.protocol ≢ codes "file:")

falsy : (t : Text) → is_truthy t ≡ false → t ≡ []
falsy [] h = refl
falsy (c ∷ cs) h = absurd (cc h)

check_redirect-IsSafeUrl :
    (o : Option Url) (uri : Text)
    → check_redirect o ≡ ok uri
    → (url : Url) × (o ≡ some url) × (uri ≡ url.href) × IsSafeUrl url
unfolding check_redirect
check_redirect-IsSafeUrl none uri h = absurd (cc h)
check_redirect-IsSafeUrl (some url) uri h = (
  url,
  refl,
  ground (arith, h),
  (
    falsy url.hash (ground (arith, h)),
    falsy url.username (ground (arith, h)),
    falsy url.password (ground (arith, h)),
    λ e. http_loopback url uri e h,
    ne_of_same url.protocol (codes "javascript:") (ground (arith, h)),
    ne_of_same url.protocol (codes "data:") (ground (arith, h)),
    ne_of_same url.protocol (codes "file:") (ground (arith, h)),
  ),
)
  where
    http_loopback :
        (u : Url) (v : Text)
        → u.protocol ≡ codes "http:"
        → check_redirect (some u) ≡ ok v
        → is_loopback_host u.hostname ≡ true
    http_loopback u v e k =
        let http : same u.protocol (codes "http:") ≡ true =
          ap (λ t. same t (codes "http:")) e ∙ same_refl (codes "http:") in
        ground (arith, http, k)

module _ (parse_url : Text → Option Url) where
  -- The serialization of a URL that was parsed and is safe.
  abbrev pub IsSafeUri : Text → Type 0
  IsSafeUri uri =
      (value : Text) × (url : Url) × (parse_url value ≡ some url) × (uri ≡ url.href) × IsSafeUrl url

  validate_redirect_uri-IsSafeUri :
      (v : Json) (uri : Text) → validate_redirect_uri parse_url (some v) ≡ ok uri → IsSafeUri uri
  unfolding validate_redirect_uri
  validate_redirect_uri-IsSafeUri (string value) uri h =
      let (url, parsed, href, safe) =
        check_redirect-IsSafeUrl (parse_url value) uri (ground (arith, h)) in
      (value, url, parsed, href, safe)
  validate_redirect_uri-IsSafeUri null uri h = absurd (cc h)
  validate_redirect_uri-IsSafeUri fractional uri h = absurd (cc h)
  validate_redirect_uri-IsSafeUri (boolean b) uri h = absurd (cc h)
  validate_redirect_uri-IsSafeUri (integral i) uri h = absurd (cc h)
  validate_redirect_uri-IsSafeUri (array vs) uri h = absurd (cc h)
  validate_redirect_uri-IsSafeUri (object es) uri h = absurd (cc h)

  module _ (trim : Text → Text) where
    validate_each-IsSafeUri :
        (vs : List Json) (uris : List Text)
        → validate_each trim parse_url vs ≡ ok uris
        → All IsSafeUri uris × (length uris ≡ length vs)
    unfolding validate_each
    validate_each-IsSafeUri [] uris h =
        subst (λ us. All IsSafeUri us × (length us ≡ 0)) (ok-injective [] uris h) (tt, refl)
    validate_each-IsSafeUri (v ∷ vs) uris h =
        let C = All IsSafeUri uris × (length uris ≡ suc (length vs)) in
        let ih = validate_each-IsSafeUri vs in
        passed C (validate_redirect_uri parse_url (some v)) _ uris
          (λ uri e. passed C (validate_each trim parse_url vs) _ uris (λ rest f k.
            let (safe, size) = ih rest f in
            subst (λ us. All IsSafeUri us × (length us ≡ suc (length vs)))
              (ok-injective (uri ∷ rest) uris k)
              ((validate_redirect_uri-IsSafeUri v uri e, safe), ap suc size)))
          h

    redirect_items-size :
        (o : Option Json) (vs : List Json)
        → redirect_items o ≡ ok vs
        → (1 ≤ length vs) × (length vs ≤ 16)
    unfolding items
    redirect_items-size (some (array (item v more))) vs h =
        let same_items : items (item v more) ≡ vs = ground (arith, h) in
        let small : length (items (item v more)) ≤ 16 = ground (arith, h) in
        subst (λ us. (1 ≤ length us) × (length us ≤ 16)) same_items (omega arith, small)
    redirect_items-size (some (array no_items)) vs h = absurd (cc h)
    redirect_items-size none vs h = absurd (cc h)
    redirect_items-size (some null) vs h = absurd (cc h)
    redirect_items-size (some fractional) vs h = absurd (cc h)
    redirect_items-size (some (boolean b)) vs h = absurd (cc h)
    redirect_items-size (some (integral i)) vs h = absurd (cc h)
    redirect_items-size (some (string t)) vs h = absurd (cc h)
    redirect_items-size (some (object es)) vs h = absurd (cc h)

    required_grant :
        (grants checked : List GrantType)
        → require_code_grant grants ≡ ok checked
        → exists is_code_grant checked ≡ true
    required_grant grants checked h = elim (Bool-cases (exists is_code_grant grants)) [
      | inl t ↦ subst (λ g. exists is_code_grant g ≡ true) (ground (arith, h, t)) t
      | inr f ↦ absurd (cc (rw (f) at h))
    ]

    abbrev pub IsRegistrable : Registration → Type 0
    IsRegistrable r =
        All IsSafeUri r.redirect_uris
        × (1 ≤ length r.redirect_uris)
        × (length r.redirect_uris ≤ 16)
        × (exists is_code_grant r.grant_types ≡ true)

    registration_of-IsRegistrable :
        (meta : JsonEntries) (r : Registration)
        → registration_of trim parse_url meta ≡ ok r
        → IsRegistrable r
    unfolding registration_of
    registration_of-IsRegistrable meta r =
        let C = IsRegistrable r in
        let at = λ (name : Text). field name meta in
        let all_grants =
          string (codes "authorization_code") ∷ string (codes "refresh_token") ∷ [] in
        passed C (redirect_items (at (codes "redirect_uris"))) _ r (λ vs a.
          passed C (validate_each trim parse_url vs) _ r (λ uris b.
            passed C (read_method (at (codes "token_endpoint_auth_method"))) _ r (λ method c.
              passed C (read_grants (items_or (at (codes "grant_types")) all_grants)) _ r
                (λ grants d. passed C (require_code_grant grants) _ r (λ checked e.
                  passed C
                    (check_response_types
                      (items_or (at (codes "response_types")) (string (codes "code") ∷ [])))
                    _ r
                    (λ u f. passed C (read_string (at (codes "client_name")) 120) _ r (λ raw g.
                      passed C (name_or_host parse_url (trimmed trim raw) uris) _ r (λ name h.
                        passed C (read_http_url parse_url (at (codes "client_uri"))) _ r
                          (λ client_uri i.
                            passed C (read_http_url parse_url (at (codes "logo_uri"))) _ r
                              (λ logo_uri j.
                                passed C (read_string (at (codes "software_id")) 120) _ r (λ id k.
                                  passed C (read_string (at (codes "software_version")) 60) _ r
                                    (λ version l m.
                                      let (safe, size) = validate_each-IsSafeUri vs uris b in
                                      let bounds =
                                        redirect_items-size (at (codes "redirect_uris")) vs a in
                                      subst IsRegistrable (ok-injective _ r m) (
                                        safe,
                                        omega (arith, size, bounds),
                                        omega (arith, size, bounds),
                                        required_grant grants checked e,
                                      )))))))))))))

    -- A client that is registered has one to sixteen redirect URIs, each the serialization of a URL
    -- without fragment and credentials, whose scheme is none of `javascript:`, `data:` and `file:`, and
    -- `http:` only on a loopback host; and it may exchange codes.
    pub client_registration_safe :
        (body : Json) (r : Registration)
        → parse_client_registration trim parse_url body ≡ ok r
        → IsRegistrable r
    unfolding parse_client_registration
    client_registration_safe (object meta) r h = registration_of-IsRegistrable meta r h
    client_registration_safe null r h = absurd (cc h)
    client_registration_safe fractional r h = absurd (cc h)
    client_registration_safe (boolean b) r h = absurd (cc h)
    client_registration_safe (integral i) r h = absurd (cc h)
    client_registration_safe (string t) r h = absurd (cc h)
    client_registration_safe (array vs) r h = absurd (cc h)
