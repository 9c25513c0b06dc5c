-- ===== src/Gateway/Injected.antt =====
-- A placeholder that is built is read back, and replaced by its value.
use kody_celld.Prelude.{
  ℕ, true, false, ◌-◌, Option, none, some, [], ◌∷◌, ◌++◌, ◌≡◌, ◌≢◌, refl, ap, arith, Text, codes,
  All, Lacks, starts_with, length, ◌==◌, sym, ◌∙◌,
}
use mathlib.Core.List.{append_assoc}
use kody_celld.Secrets.Defs.{SecretScope, user_scope, package_scope, session_scope}
use kody_celld.Gateway.Placeholders.{
  ReferencedSecret, is_name_char, take_while, drop_while, closing_of, closing,
  build_secret_placeholder, match_secret, match_all, secret_text, parse_secret_placeholders,
}
use kody_celld.Gateway.Replace.{replace_secret_placeholders}
use kody_celld.Gateway.Expanded.{expand-plain, expand-dollars, replace_all-once}

abbrev pub IsName : Text → Type 0
IsName name = All (λ c. is_name_char c ≡ true) name × (name ≢ [])

-- What stands behind the name starts with no character of a name.
take_while-append :
    (name behind : Text) (c : ℕ)
    → All (λ c. is_name_char c ≡ true) name
    → is_name_char c ≡ false
    → (take_while is_name_char (name ++ c ∷ behind) ≡ name)
      × (drop_while is_name_char (name ++ c ∷ behind) ≡ c ∷ behind)
unfolding take_while drop_while
take_while-append [] behind c all other = (rw other refl, rw other refl)
take_while-append (n ∷ name) behind c all other =
    let (taken, dropped) = take_while-append name behind c all.1 other in
    (rw (all.0, taken) refl, rw (all.0, dropped) refl)

closing-append :
    (scope : Option SecretScope) (rest : Text) → closing (closing_of scope ++ rest) ≡ some scope
unfolding closing starts_with
closing-append none rest = refl
closing-append (some user_scope) rest = refl
closing-append (some package_scope) rest = refl
closing-append (some session_scope) rest = refl

-- The characters with which a placeholder closes belong to no name.
closing_of-first :
    (scope : Option SecretScope) (rest : Text)
    → (c : ℕ) × (cs : Text) × (closing_of scope ++ rest ≡ c ∷ cs) × (is_name_char c ≡ false)
closing_of-first none rest = (125, 125 ∷ rest, refl, refl)
closing_of-first (some user_scope) rest = (124, codes "scope=user}}" ++ rest, refl, refl)
closing_of-first (some package_scope) rest = (124, codes "scope=package}}" ++ rest, refl, refl)
closing_of-first (some session_scope) rest = (124, codes "scope=session}}" ++ rest, refl, refl)

abbrev pub reference : (name : Text) → Option SecretScope → ReferencedSecret
reference name scope = record {
  placeholder = build_secret_placeholder name scope;
  name = name;
  scope = scope;
}

match_secret-name :
    (name : Text) (scope : Option SecretScope) (c : ℕ) (cs : Text)
    → IsName name
    → is_name_char c ≡ false
    → closing (c ∷ cs) ≡ some scope
    → match_secret (codes "{{secret:" ++ (name ++ c ∷ cs)) ≡ some (reference name scope)
unfolding match_secret
match_secret-name [] scope c cs h other e = absurd (h.1 refl)
match_secret-name (n ∷ name) scope c cs h other e =
    let (taken, dropped) = take_while-append (n ∷ name) cs c h.0 other in
    rw (taken, dropped, e) refl

match_secret-build :
    (name : Text) (scope : Option SecretScope) (rest : Text)
    → IsName name
    → match_secret (build_secret_placeholder name scope ++ rest) ≡ some (reference name scope)
unfolding build_secret_placeholder
match_secret-build name scope rest h =
    let (c, cs, e, other) = closing_of-first scope rest in
    let read : closing (c ∷ cs) ≡ some scope = ap closing (sym e) ∙ closing-append scope rest in
    rw (append_assoc name (closing_of scope) rest, e)
      (match_secret-name name scope c cs h other read)

match_secret-other : (c : ℕ) (cs : Text) → c ≢ 123 → match_secret (c ∷ cs) ≡ none
unfolding match_secret
match_secret-other c cs h = let e : (123 == c) ≡ false = ground (arith, h) in rw e refl

-- The characters of a match are passed over.
match_all-skip :
    (p rest : Text)
    → match_all match_secret secret_text (length p) (p ++ rest)
      ≡ match_all match_secret secret_text 0 rest
unfolding match_all
match_all-skip [] rest = refl
match_all-skip (c ∷ p) rest = match_all-skip p rest

match_all-none : (text : Text) → Lacks 123 text → match_all match_secret secret_text 0 text ≡ []
unfolding match_all
match_all-none [] h = refl
match_all-none (c ∷ text) h = rw (match_secret-other c text h.0) (match_all-none text h.1)

match_all-front :
    (front text : Text)
    → Lacks 123 front
    → match_all match_secret secret_text 0 (front ++ text)
      ≡ match_all match_secret secret_text 0 text
unfolding match_all
match_all-front [] text h = refl
match_all-front (c ∷ front) text h =
    rw (match_secret-other c (front ++ text) h.0) (match_all-front front text h.1)

match_all-hit :
    (c : ℕ) (p rest : Text) (r : ReferencedSecret)
    → match_secret (c ∷ (p ++ rest)) ≡ some r
    → r.placeholder ≡ c ∷ p
    → match_all match_secret secret_text 0 (c ∷ (p ++ rest))
      ≡ r ∷ match_all match_secret secret_text 0 rest
unfolding match_all
match_all-hit c p rest r e text =
    let passed : length r.placeholder - 1 ≡ length p = rw text (omega arith) in
    rw (e, passed, match_all-skip p rest) refl

parse-build :
    (name : Text) (scope : Option SecretScope) (front rest : Text)
    → IsName name
    → Lacks 123 front
    → Lacks 123 rest
    → parse_secret_placeholders (front ++ (build_secret_placeholder name scope ++ rest))
      ≡ reference name scope ∷ []
unfolding parse_secret_placeholders
parse-build name scope front rest h before behind =
    let p = codes "{secret:" ++ (name ++ closing_of scope) in
    let opened : build_secret_placeholder name scope ≡ 123 ∷ p =
      unfold build_secret_placeholder in refl in
    let found = match_secret-build name scope rest h in
    match_all-front front (build_secret_placeholder name scope ++ rest) before
    ∙ rw opened (match_all-hit 123 p rest (reference name scope) (rw (← opened) found) opened)
    ∙ ap (λ found. reference name scope ∷ found) (match_all-none rest behind)

-- A secret's placeholder, the only one in a text without other opening braces, is read as its name
-- and its scope. It is replaced by the value where that holds no dollar sign; where a value holds
-- two in a row and no others, one of them is lost.
pub secret_injected :
    (name : Text) (scope : Option SecretScope) (front rest value value' : Text)
    → IsName name
    → Lacks 123 front
    → Lacks 123 rest
    → Lacks 36 value
    → Lacks 36 value'
    → (parse_secret_placeholders (front ++ (build_secret_placeholder name scope ++ rest))
        ≡ reference name scope ∷ [])
      × (replace_secret_placeholders
            (front ++ (build_secret_placeholder name scope ++ rest))
            ((build_secret_placeholder name scope, value) ∷ [])
          ≡ front ++ (value ++ rest))
      × (replace_secret_placeholders
            (front ++ (build_secret_placeholder name scope ++ rest))
            ((build_secret_placeholder name scope, value ++ 36 ∷ 36 ∷ value') ∷ [])
          ≡ front ++ ((value ++ 36 ∷ value') ++ rest))
unfolding replace_secret_placeholders build_secret_placeholder
secret_injected name scope front rest value value' h before behind plain plain' =
    let p = codes "{secret:" ++ (name ++ closing_of scope) in
    (
      parse-build name scope front rest h before behind,
      rw
          (
            replace_all-once 123 p value front rest before behind,
            expand-plain (123 ∷ p) front rest value plain,
          )
          refl,
      rw
          (
            replace_all-once 123 p (value ++ 36 ∷ 36 ∷ value') front rest before behind,
            expand-dollars (123 ∷ p) front rest value value' plain plain',
          )
          refl,
    )
