-- ===== src/Oauth/Protocol/Authorize.antt =====
-- `parseAuthorizeRequest` and `normalizeScope`.
use kody_celld.Prelude.{
  ℕ, Bool, true, false, not, ◌&&◌, ◌||◌, Option, none, some, List, [], ◌∷◌, ◌++◌, Text, codes, same,
  contains, ltb, ◌==◌, between, length, if◌then◌else◌,
}
use kody_celld.Act.{Result, ok, err}
use kody_celld.Oauth.Protocol.Redirects.{
  ProtocolError, invalid_request, invalid_client, unsupported_response_type, invalid_target, Url,
  redirect_uri_matches,
}
use kody_celld.Results.{◌>>=◌}

-- `URLSearchParams`: `get` is the first value of a name.
abbrev pub Params : Type 0
Params = Text → Option Text

pub record AuthorizeClient : Type 0 where
  pub client_id : Text
  pub redirect_uris : List Text

pub record AuthorizeRequest : Type 0 where
  pub client_id : Text
  pub redirect_uri : Text
  pub code_challenge : Text
  pub state : Option Text
  pub scope : Text
  pub resource : Text

-- The characters of `\s`
abbrev pub is_white : ℕ → Bool
is_white c =
    between 9 13 c
    || (c == 32)
    || (c == 160)
    || (c == 0x1680)
    || between 0x2000 0x200a c
    || between 0x2028 0x2029 c
    || (c == 0x202f)
    || (c == 0x205f)
    || (c == 0x3000)
    || (c == 0xfeff)

abbrev pub add_word : Text → List Text → List Text
add_word [] words = words
add_word (c ∷ cs) words = (c ∷ cs) ∷ words

-- `raw.split(/\s+/).filter(Boolean)`
unfoldable pub words_from : (word : Text) → Text → List Text
words_from word [] = add_word word []
words_from word (c ∷ cs) =
    let next = words_from [] cs in
    let on = words_from (word ++ c ∷ []) cs in if is_white c then add_word word next else on

abbrev pub oauth_scopes : List Text
oauth_scopes = codes "openid" ∷ codes "profile" ∷ codes "email" ∷ []

-- `oauthScopes.filter((scope) => requested.includes(scope))`
unfoldable pub kept : (requested : List Text) → List Text → List Text
kept requested [] = []
kept requested (scope ∷ scopes) =
    let rest = kept requested scopes in if contains scope requested then scope ∷ rest else rest

-- `kept.join(' ')`
unfoldable pub join_words : List Text → Text
join_words [] = []
join_words (word ∷ []) = word
join_words (word ∷ next ∷ words) = word ++ 32 ∷ join_words (next ∷ words)

abbrev pub or_empty_text : Option Text → Text
or_empty_text none = []
or_empty_text (some t) = t

unfoldable pub normalize_scope : Option Text → Text
unfolding words_from kept join_words
normalize_scope raw = join_words (kept (words_from [] (or_empty_text raw)) oauth_scopes)

-- `[A-Za-z0-9._~-]`
abbrev pub is_unreserved : ℕ → Bool
is_unreserved c =
    between 65 90 c
    || between 97 122 c
    || between 48 57 c
    || (c == 46)
    || (c == 95)
    || (c == 126)
    || (c == 45)

unfoldable pub all_unreserved : Text → Bool
all_unreserved [] = true
all_unreserved (c ∷ cs) = is_unreserved c && all_unreserved cs

-- `/^[A-Za-z0-9._~-]{43,128}$/`
unfoldable pub is_pkce_text : Text → Bool
unfolding all_unreserved
is_pkce_text t = between 43 128 (length t) && all_unreserved t

abbrev pub require : Bool → ProtocolError → Result ProtocolError (Unit {0})
require true e = ok tt
require false e = err e

abbrev pub present : Option Text → ProtocolError → Result ProtocolError Text
present none e = err e
present (some []) e = err e
present (some (c ∷ cs)) e = ok (c ∷ cs)

abbrev pub known_client : Option AuthorizeClient → Result ProtocolError AuthorizeClient
known_client none = err invalid_client
known_client (some client) = ok client

abbrev pub only_uri : List Text → Option Text
only_uri (uri ∷ []) = some uri
only_uri _ = none

abbrev pub or_only : Option Text → List Text → Option Text
or_only (some uri) uris = some uri
or_only none uris = only_uri uris

abbrev pub is_text : Text → Option Text → Bool
is_text wanted none = false
is_text wanted (some t) = same t wanted

abbrev pub text_or : Option Text → Text → Text
text_or none default = default
text_or (some t) default = t

-- A state that is empty or absent is not long.
abbrev pub is_long : Option Text → Bool
is_long none = false
is_long (some t) = ltb 1024 (length t)

module _ (parse_url : Text → Option Url) where
  unfoldable pub parse_authorize_request :
      Params → Option AuthorizeClient → (issuer : Text) → Result ProtocolError AuthorizeRequest
  unfolding redirect_uri_matches is_pkce_text normalize_scope
  parse_authorize_request get client issuer = do
    client_id ← present (get (codes "client_id")) invalid_request
    known ← known_client client
    redirect_uri ←
        present (or_only (get (codes "redirect_uri")) known.redirect_uris) invalid_request
    matched ←
        require (redirect_uri_matches parse_url redirect_uri known.redirect_uris) invalid_request
    typed ← require (is_text (codes "code") (get (codes "response_type"))) unsupported_response_type
    code_challenge ← present (get (codes "code_challenge")) invalid_request
    formed ← require (is_pkce_text code_challenge) invalid_request
    hashed ←
        require (same (text_or (get (codes "code_challenge_method")) (codes "S256")) (codes "S256"))
          invalid_request
    targeted ←
        require
          (same (text_or (get (codes "resource")) (issuer ++ codes "/mcp")) (issuer ++ codes "/mcp")
            || same (text_or (get (codes "resource")) (issuer ++ codes "/mcp")) issuer)
          invalid_target
    stated ← require (not (is_long (get (codes "state")))) invalid_request
    ok (record {
      client_id = client_id;
      redirect_uri = redirect_uri;
      code_challenge = code_challenge;
      state = get (codes "state");
      scope = normalize_scope (get (codes "scope"));
      resource = issuer ++ codes "/mcp";
    })
