-- ===== src/Packages/Manifest.antt =====
-- The parts of `parsePackageManifest` of src/packages/manifest.ts that name modules: exports, jobs and
-- the secret provider; and the dependencies.
use kody_celld.Prelude.{
  ℕ, Bool, true, false, ◌&&◌, ◌||◌, Option, none, some, List, [], ◌∷◌, Text, codes, same, contains,
  split_from, between, leb, length, ◌==◌, if◌then◌else◌,
}
use kody_celld.Act.{Result, ok, err}
use kody_celld.Json.{Json, boolean, string, object, JsonEntries, field}
use kody_celld.Packages.Paths.{ManifestError, invalid_manifest}

abbrev pub Outcome : Type 0 → Type 0
Outcome A = Result ManifestError A

-- A name and what it stands for: `Record<string, string>`.
abbrev pub Named : Type 0
Named = Text × Text

-- `name in files` for an object literal or the result of `JSON.parse`: its own names, and those of
-- `Object.prototype`.
abbrev pub prototype_names : List Text
prototype_names =
    codes "constructor"
    ∷ codes "toString"
    ∷ codes "toLocaleString"
    ∷ codes "valueOf"
    ∷ codes "hasOwnProperty"
    ∷ codes "isPrototypeOf"
    ∷ codes "propertyIsEnumerable"
    ∷ codes "__proto__"
    ∷ codes "__defineGetter__"
    ∷ codes "__defineSetter__"
    ∷ codes "__lookupGetter__"
    ∷ codes "__lookupSetter__"
    ∷ []

abbrev pub is_in : (paths : List Text) → Text → Bool
is_in paths path = contains path paths || contains path prototype_names

abbrev pub is_start_char : ℕ → Bool
is_start_char c = between 97 122 c || between 48 57 c

abbrev pub is_tail_char : ℕ → Bool
is_tail_char c = is_start_char c || (c == 46) || (c == 95) || (c == 45)

unfoldable pub all_chars : (ℕ → Bool) → Text → Bool
all_chars is_ok [] = true
all_chars is_ok (c ∷ cs) = is_ok c && all_chars is_ok cs

-- `[a-z0-9][a-z0-9._-]*`
unfoldable pub is_plain_name : Text → Bool
unfolding all_chars
is_plain_name [] = false
is_plain_name (c ∷ cs) = is_start_char c && all_chars is_tail_char cs

abbrev pub is_scoped : List Text → Bool
is_scoped (scope ∷ name ∷ []) = is_plain_name scope && is_plain_name name
is_scoped _ = false

-- `packageNamePattern.test(name)`
unfoldable pub package_name_pattern : Text → Bool
unfolding is_plain_name split_from
package_name_pattern [] = false
package_name_pattern (c ∷ cs) =
    if c == 64 then is_scoped (split_from 47 [] cs) else is_plain_name (c ∷ cs)

unfoldable pub secret_provider_id_pattern : Text → Bool
unfolding is_plain_name
secret_provider_id_pattern id = is_plain_name id && leb (length id) 64

abbrev pub is_job_start : ℕ → Bool
is_job_start c = is_start_char c || between 65 90 c

abbrev pub is_job_tail : ℕ → Bool
is_job_tail c = is_tail_char c || between 65 90 c

unfoldable pub job_name_pattern : Text → Bool
unfolding all_chars
job_name_pattern [] = false
job_name_pattern (c ∷ cs) = is_job_start c && all_chars is_job_tail cs

-- `key.replace(/^\.\//, '')`, which leaves `.`.
unfoldable pub export_name : Text → Text
export_name [] = []
export_name (c ∷ []) = c ∷ []
export_name (c ∷ d ∷ cs) = if c == 46 then (if d == 47 then cs else c ∷ d ∷ cs) else c ∷ d ∷ cs

-- `exports[name] = path`: an assignment of a text to `__proto__` does nothing.
unfoldable pub put_named : (name path : Text) → List Named → List Named
put_named name path [] = (name, path) ∷ []
put_named name path (e ∷ es) =
    let rest = put_named name path es in if same e.0 name then (name, path) ∷ es else e ∷ rest

unfoldable pub set_export : (name path : Text) → List Named → List Named
unfolding put_named same
set_export name path exports =
    if same name (codes "__proto__") then exports else put_named name path exports

unfoldable pub find_named : Text → List Named → Option Text
find_named name [] = none
find_named name (e ∷ es) = let rest = find_named name es in if same e.0 name then some e.1 else rest

pub data JobSchedule : Type 0 where
  cron : (expression : Text) → JobSchedule
  interval : (every : Text) → JobSchedule
  once : (run_at : Text) → JobSchedule

pub record JobDefinition : Type 0 where
  pub entry : Text
  pub schedule : JobSchedule
  pub timezone : Option Text
  pub enabled : Option Bool
  pub description : Option Text

pub record SecretProviderDefinition : Type 0 where
  pub id : Text
  pub entry : Text
  pub description : Option Text

abbrev pub text_of : Option Json → Option Text
text_of (some (string t)) = some t
text_of _ = none

abbrev pub flag_of : Option Json → Option Bool
flag_of (some (boolean b)) = some b
flag_of _ = none

module _ (trim : Text → Text) where
  -- A text that is not blank, trimmed.
  abbrev pub trimmed : Option Text → Option Text
  trimmed none = none
  trimmed (some t) = elim (trim t) [ [] ↦ none | c ∷ cs ↦ some (c ∷ cs) ]

  abbrev pub scheduled : (Text → JobSchedule) → Option Text → Outcome JobSchedule
  scheduled make none = err invalid_manifest
  scheduled make (some t) = ok (make t)

  abbrev pub schedule_of_type : Option Text → JsonEntries → Outcome JobSchedule
  schedule_of_type none raw = err invalid_manifest
  schedule_of_type (some type) raw =
      if same type (codes "cron")
      then scheduled cron (trimmed (text_of (field (codes "expression") raw)))
      else if same type (codes "interval")
      then scheduled interval (trimmed (text_of (field (codes "every") raw)))
      else if same type (codes "once")
      then scheduled once (trimmed (text_of (field (codes "runAt") raw)))
      else err invalid_manifest

  unfoldable pub parse_schedule : Option Json → Outcome JobSchedule
  unfolding field same
  parse_schedule (some (object raw)) = schedule_of_type (text_of (field (codes "type") raw)) raw
  parse_schedule _ = err invalid_manifest
