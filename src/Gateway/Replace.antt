-- ===== src/Gateway/Replace.antt =====
-- `replaceSecretPlaceholders` and `collectPlaceholders` of src/secrets/placeholders.ts.
use kody_celld.Prelude.{
  ℕ, zero, suc, Bool, ◌-◌, List, [], ◌∷◌, ◌++◌, Text, starts_with, ◌==◌, length, drop,
  if◌then◌else◌,
}
use kody_celld.Gateway.Placeholders.{
  ReferencedSecret, ReferencedBasicAuthSecret, ReferencedIntegrationToken, ReferencedProviderSecret,
  parse_secret_placeholders, parse_basic_auth_secret_placeholders,
  parse_integration_token_placeholders, parse_provider_secret_placeholders,
}

-- What `replaceAll` makes of a replacement: `$$`, `$&`, `` $` `` and `$'` are patterns also where a
-- text is searched for; every other `$` stands for itself.
unfoldable pub expand : (matched before behind : Text) → (template : Text) → Text
expand matched before behind [] = []
expand matched before behind (c ∷ []) = c ∷ []
expand matched before behind (c ∷ d ∷ cs) =
    let kept = c ∷ expand matched before behind (d ∷ cs) in
    let rest = expand matched before behind cs in
    if c == 36
    then (if d == 36
        then 36 ∷ rest
        else if d == 38
        then matched ++ rest
        else if d == 96
        then before ++ rest
        else if d == 39
        then behind ++ rest
        else kept)
    else kept

module _ (placeholder secret_value : Text) where
  -- One character of the text: `hit` is whether a match starts there.
  abbrev pub replaced_here : (hit : Bool) → (before : Text) → (c : ℕ) → (cs : Text) → Text
  replaced_here hit before c cs =
      if hit
      then expand placeholder before (drop (length placeholder) (c ∷ cs)) secret_value
      else c ∷ []

  abbrev pub skip_after : (hit : Bool) → ℕ
  skip_after hit = if hit then length placeholder - 1 else 0

  -- `skip` characters still belong to the last match, and `before` is the text in front.
  unfoldable pub replace_from : (skip : ℕ) → (before text : Text) → Text
  unfolding expand
  replace_from skip before [] = []
  replace_from zero before (c ∷ cs) =
      let hit = starts_with placeholder (c ∷ cs) in
      replaced_here hit before c cs ++ replace_from (skip_after hit) (before ++ c ∷ []) cs
  replace_from (suc skip) before (c ∷ cs) = replace_from skip (before ++ c ∷ []) cs

  -- `text.replaceAll(placeholder, secretValue)`, where the placeholder is not empty.
  unfoldable pub replace_all : (text : Text) → Text
  unfolding replace_from
  replace_all text = replace_from 0 [] text

-- The replacements are in the order in which they were first set.
unfoldable pub replace_secret_placeholders :
    (value : Text) → (replacements : List (Text × Text)) → Text
unfolding replace_all
replace_secret_placeholders value [] = value
replace_secret_placeholders value ((placeholder, secret_value) ∷ rest) =
    replace_secret_placeholders (replace_all placeholder secret_value value) rest

pub record Collected : Type 0 where
  pub secrets : List ReferencedSecret
  pub basic : List ReferencedBasicAuthSecret
  pub integration_tokens : List ReferencedIntegrationToken
  pub provider_secrets : List ReferencedProviderSecret

unfoldable pub collect_placeholders : (trim : Text → Text) → (value : Text) → Collected
unfolding parse_secret_placeholders parse_basic_auth_secret_placeholders
    parse_integration_token_placeholders parse_provider_secret_placeholders
collect_placeholders trim value = record {
  secrets = parse_secret_placeholders value;
  basic = parse_basic_auth_secret_placeholders value;
  integration_tokens = parse_integration_token_placeholders value;
  provider_secrets = parse_provider_secret_placeholders trim value;
}
