-- ===== src/Gateway/Placeholders.antt =====
-- The placeholders of src/secrets/placeholders.ts: how they are read and built. A match is given by
-- its parts, and its text is put together from them again.
use kody_celld.Prelude.{
  ℕ, zero, suc, Bool, false, ◌&&◌, ◌||◌, ◌-◌, Option, none, some, List, [], ◌∷◌, ◌++◌, Text, codes,
  starts_with, ◌==◌, between, length, not, if◌then◌else◌,
}
use kody_celld.Secrets.Defs.{SecretScope, user_scope, package_scope, session_scope}

pub record ReferencedSecret : Type 0 where
  pub placeholder : Text
  pub name : Text
  pub scope : Option SecretScope

pub record ReferencedBasicAuthSecret : Type 0 where
  pub placeholder : Text
  pub username : Text
  pub password : Text
  pub scope : Option SecretScope

pub record ReferencedIntegrationToken : Type 0 where
  pub placeholder : Text
  pub name : Text

pub record ReferencedProviderSecret : Type 0 where
  pub placeholder : Text
  pub provider : Text
  pub ref : Text

-- `[a-zA-Z0-9._-]`
abbrev pub is_name_char : ℕ → Bool
is_name_char c =
    between 97 122 c || between 65 90 c || between 48 57 c || (c == 46) || (c == 95) || (c == 45)

-- `[^}]`
abbrev pub is_ref_char : ℕ → Bool
is_ref_char c = not (c == 125)

unfoldable pub take_while : (ℕ → Bool) → Text → Text
take_while test [] = []
take_while test (c ∷ cs) = let rest = take_while test cs in if test c then c ∷ rest else []

unfoldable pub drop_while : (ℕ → Bool) → Text → Text
drop_while test [] = []
drop_while test (c ∷ cs) = let rest = drop_while test cs in if test c then rest else c ∷ cs

-- What stands behind a literal part of a pattern.
unfoldable pub after : (literal text : Text) → Option Text
after [] text = some text
after (l ∷ ls) [] = none
after (l ∷ ls) (c ∷ cs) = if l == c then after ls cs else none

abbrev pub scope_text : SecretScope → Text
scope_text user_scope = codes "user"
scope_text package_scope = codes "package"
scope_text session_scope = codes "session"

-- `scope ? `|scope=${scope}` : ''` and the closing braces.
abbrev pub closing_of : Option SecretScope → Text
closing_of none = codes "}}"
closing_of (some scope) = codes "|scope=" ++ (scope_text scope ++ codes "}}")

abbrev pub closes_with : Option SecretScope → Text → Bool
closes_with scope text = starts_with (closing_of scope) text

-- `(?:\|scope=(session|package|user))?\}\}`
unfoldable pub closing : Text → Option (Option SecretScope)
closing text =
    if closes_with (some session_scope) text
    then some (some session_scope)
    else if closes_with (some package_scope) text
    then some (some package_scope)
    else if closes_with (some user_scope) text
    then some (some user_scope)
    else if closes_with none text
    then some none
    else none

abbrev pub or_none {ℓ κ} : {A : Type ℓ} {B : Type κ} → Option A → (A → Option B) → Option B
or_none none f = none
or_none (some a) f = f a

-- `[a-zA-Z0-9._-]+`, and what `f` reads behind it.
abbrev pub named {ℓ} :
    {A : Type ℓ} → Text → (name rest : Text) → (Text → Text → Option A) → Option A
named text [] rest f = none
named text (c ∷ cs) rest f = f (c ∷ cs) rest

abbrev pub with_name {ℓ} : {A : Type ℓ} → Text → (Text → Text → Option A) → Option A
with_name text f = named text (take_while is_name_char text) (drop_while is_name_char text) f

unfoldable pub build_secret_placeholder : (name : Text) → Option SecretScope → Text
build_secret_placeholder name scope = codes "{{secret:" ++ (name ++ closing_of scope)

unfoldable pub build_integration_token_placeholder : (name : Text) → Text
build_integration_token_placeholder name = codes "{{integration-token:" ++ (name ++ codes "}}")

unfoldable pub build_provider_secret_placeholder : (provider ref : Text) → Text
build_provider_secret_placeholder provider ref =
    codes "{{secret/" ++ (provider ++ (58 ∷ (ref ++ codes "}}")))

abbrev pub basic_placeholder : (username password : Text) → Option SecretScope → Text
basic_placeholder username password scope =
    codes "{{secret-basic:username="
    ++ (username ++ (codes ",password=" ++ (password ++ closing_of scope)))

-- A match at the start of a text.
unfoldable pub match_secret : Text → Option ReferencedSecret
unfolding after take_while drop_while closing build_secret_placeholder
match_secret text = or_none (after (codes "{{secret:") text) λ rest. with_name rest λ name behind.
    or_none (closing behind) λ scope.
      some
        (record { placeholder = build_secret_placeholder name scope; name = name; scope = scope })

unfoldable pub match_basic : Text → Option ReferencedBasicAuthSecret
unfolding after take_while drop_while closing
match_basic text = or_none (after (codes "{{secret-basic:username=") text) λ rest.
    with_name rest λ username behind. or_none (after (codes ",password=") behind) λ rest'.
      with_name rest' λ password behind'. or_none (closing behind') λ scope. some (record {
        placeholder = basic_placeholder username password scope;
        username = username;
        password = password;
        scope = scope;
      })

unfoldable pub match_integration_token : Text → Option ReferencedIntegrationToken
unfolding after take_while drop_while build_integration_token_placeholder
match_integration_token text = or_none (after (codes "{{integration-token:") text) λ rest.
    with_name rest λ name behind.
      if starts_with (codes "}}") behind
      then some (record { placeholder = build_integration_token_placeholder name; name = name })
      else none

-- The text of the reference as it stands, with the blanks around it.
unfoldable pub match_provider : Text → Option ReferencedProviderSecret
unfolding after take_while drop_while build_provider_secret_placeholder
match_provider text = or_none (after (codes "{{secret/") text) λ rest.
    with_name rest λ provider behind. or_none (after (codes ":") behind) λ rest'.
      named rest' (take_while is_ref_char rest') (drop_while is_ref_char rest') λ ref behind'.
        if starts_with (codes "}}") behind'
        then some (record {
          placeholder = build_provider_secret_placeholder provider ref;
          provider = provider;
          ref = ref;
        })
        else none

module _ {ℓ} {A : Type ℓ} (match_at : Text → Option A) (text_of : A → Text) where
  abbrev pub skip_of : Option A → ℕ
  skip_of none = 0
  skip_of (some a) = length (text_of a) - 1

  abbrev pub add_match : Option A → List A → List A
  add_match none found = found
  add_match (some a) found = a ∷ found

  -- `text.matchAll(pattern)`; `skip` characters still belong to the last match.
  unfoldable pub match_all : (skip : ℕ) → Text → List A
  match_all skip [] = []
  match_all zero (c ∷ cs) =
      let found = match_at (c ∷ cs) in add_match found (match_all (skip_of found) cs)
  match_all (suc skip) (c ∷ cs) = match_all skip cs

abbrev pub secret_text : ReferencedSecret → Text
secret_text r = r.placeholder

abbrev pub basic_text : ReferencedBasicAuthSecret → Text
basic_text r = r.placeholder

abbrev pub token_text : ReferencedIntegrationToken → Text
token_text r = r.placeholder

abbrev pub provider_text : ReferencedProviderSecret → Text
provider_text r = r.placeholder

unfoldable pub parse_secret_placeholders : Text → List ReferencedSecret
unfolding match_secret match_all
parse_secret_placeholders value = match_all match_secret secret_text 0 value

unfoldable pub parse_basic_auth_secret_placeholders : Text → List ReferencedBasicAuthSecret
unfolding match_basic match_all
parse_basic_auth_secret_placeholders value = match_all match_basic basic_text 0 value

unfoldable pub parse_integration_token_placeholders : Text → List ReferencedIntegrationToken
unfolding match_integration_token match_all
parse_integration_token_placeholders value = match_all match_integration_token token_text 0 value

-- `ref` without the blanks around it; a blank one is left out.
abbrev pub trimmed_ref :
    ReferencedProviderSecret
    → (ref : Text) → List ReferencedProviderSecret
    → List ReferencedProviderSecret
trimmed_ref p [] rest = rest
trimmed_ref p (c ∷ cs) rest = record p { ref = c ∷ cs } ∷ rest

module _ (trim : Text → Text) where
  unfoldable pub trimmed_refs : List ReferencedProviderSecret → List ReferencedProviderSecret
  trimmed_refs [] = []
  trimmed_refs (p ∷ ps) = trimmed_ref p (trim p.ref) (trimmed_refs ps)

  unfoldable pub parse_provider_secret_placeholders : Text → List ReferencedProviderSecret
  unfolding match_provider match_all trimmed_refs
  parse_provider_secret_placeholders value =
      trimmed_refs (match_all match_provider provider_text 0 value)

-- `/\{\{(?:secret(?:\/|:|-basic:)|integration-token:)/.test(value)`
abbrev pub opens_placeholder : Text → Bool
opens_placeholder text =
    starts_with (codes "{{secret/") text
    || starts_with (codes "{{secret:") text
    || starts_with (codes "{{secret-basic:") text
    || starts_with (codes "{{integration-token:") text

unfoldable pub contains_secret_placeholder : Text → Bool
contains_secret_placeholder [] = false
contains_secret_placeholder (c ∷ cs) = opens_placeholder (c ∷ cs) || contains_secret_placeholder cs

-- `replaceAll` of `%7B`, or of `%7D`, in either case.
unfoldable pub decode_hex_brace : (low high brace : ℕ) → Text → Text
decode_hex_brace low high brace (a ∷ b ∷ c ∷ cs) =
    let decoded = brace ∷ decode_hex_brace low high brace cs in
    let kept = a ∷ decode_hex_brace low high brace (b ∷ c ∷ cs) in
    if (a == 37) && ((b == 55) && ((c == low) || (c == high))) then decoded else kept
decode_hex_brace low high brace (a ∷ b ∷ []) = a ∷ b ∷ []
decode_hex_brace low high brace (a ∷ []) = a ∷ []
decode_hex_brace low high brace [] = []

unfoldable pub decode_secret_placeholder_delimiters : Text → Text
unfolding decode_hex_brace
decode_secret_placeholder_delimiters value =
    decode_hex_brace 100 68 125 (decode_hex_brace 98 66 123 value)
