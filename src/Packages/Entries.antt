-- ===== src/Packages/Entries.antt =====
-- The modules that a manifest names: `parsePackageManifest` of src/packages/manifest.ts up to its
-- dependencies, `parseSecretProvider` and `parseKodyPackageSpecifier`.
use kody_celld.Prelude.{
  Bool, true, ◌&&◌, Option, none, some, List, [], ◌∷◌, Text, codes, if◌then◌else◌,
}
use kody_celld.Act.{ok, err}
use kody_celld.Results.{◌>>=◌}
use kody_celld.Json.{Json, string, object, JsonEntries, no_entries, entry, field}
use kody_celld.Packages.Paths.{invalid_manifest, normalize_module_path}
use kody_celld.Packages.Manifest.{
  Outcome, Named, is_in, package_name_pattern, secret_provider_id_pattern, job_name_pattern,
  export_name, set_export, find_named, JobDefinition, SecretProviderDefinition, text_of, flag_of,
  parse_schedule,
}

unfoldable pub all_in : (files : List Text) → List Named → Bool
all_in files [] = true
all_in files (e ∷ es) = is_in files e.1 && all_in files es

module _ (trim : Text → Text) where
  abbrev pub path_of : Json → Outcome Text
  path_of (string path) = normalize_module_path trim path
  path_of _ = err invalid_manifest

  unfoldable pub each_export : JsonEntries → List Named → Outcome (List Named)
  unfolding export_name set_export
  each_export no_entries exports = ok exports
  each_export (entry key value es) exports =
      path_of value >>= (λ path. each_export es (set_export (export_name key) path exports))

  abbrev pub only_export : Text → Outcome (List Named)
  only_export path = normalize_module_path trim path >>= (λ p. ok ((codes ".", p) ∷ []))

  abbrev pub main_export : Option Json → Outcome (List Named)
  main_export (some (string path)) = only_export path
  main_export _ = ok []

  abbrev pub read_exports : (exports main : Option Json) → Outcome (List Named)
  read_exports (some (string path)) main = only_export path
  read_exports (some (object es)) main = each_export es []
  read_exports _ main = main_export main

  -- The exports of the parsed package.json.
  unfoldable pub parse_exports : (files : List Text) → JsonEntries → Outcome (List Named)
  unfolding each_export all_in field
  parse_exports files json =
      read_exports (field (codes "exports") json) (field (codes "main") json)
      >>= (λ exports. if all_in files exports then ok exports else err invalid_manifest)

  abbrev pub job_at : (files : List Text) → JsonEntries → (entry : Text) → Outcome JobDefinition
  job_at files raw path =
      if is_in files path
      then (parse_schedule trim (field (codes "schedule") raw) >>= (λ schedule. ok (record {
        entry = path;
        schedule = schedule;
        timezone = text_of (field (codes "timezone") raw);
        enabled = flag_of (field (codes "enabled") raw);
        description = text_of (field (codes "description") raw);
      })))
      else err invalid_manifest

  abbrev pub job_of_entry : (files : List Text) → JsonEntries → Option Json → Outcome JobDefinition
  job_of_entry files raw (some (string path)) =
      normalize_module_path trim path >>= (λ p. job_at files raw p)
  job_of_entry files raw _ = err invalid_manifest

  abbrev pub job_of : (files : List Text) → (name : Text) → Json → Outcome JobDefinition
  job_of files name (object raw) =
      if job_name_pattern name
      then job_of_entry files raw (field (codes "entry") raw)
      else err invalid_manifest
  job_of files name _ = err invalid_manifest

  unfoldable pub each_job :
      (files : List Text) → JsonEntries → Outcome (List (Text × JobDefinition))
  unfolding job_name_pattern field parse_schedule
  each_job files no_entries = ok []
  each_job files (entry name raw es) =
      job_of files name raw >>= (λ job. each_job files es >>= (λ jobs. ok ((name, job) ∷ jobs)))

  abbrev pub parse_jobs : (files : List Text) → Option Json → Outcome (List (Text × JobDefinition))
  parse_jobs files none = ok []
  parse_jobs files (some (object es)) = each_job files es
  parse_jobs files (some _) = err invalid_manifest

abbrev pub dependency_of : (name : Text) → Json → Outcome Named
dependency_of name (string range) =
    if package_name_pattern name then ok (name, range) else err invalid_manifest
dependency_of name _ = err invalid_manifest

unfoldable pub each_dependency : JsonEntries → Outcome (List Named)
unfolding package_name_pattern
each_dependency no_entries = ok []
each_dependency (entry name range es) =
    dependency_of name range
    >>= (λ dependency. each_dependency es >>= (λ rest. ok (dependency ∷ rest)))

abbrev pub parse_dependencies : Option Json → Outcome (List Named)
parse_dependencies (some (object es)) = each_dependency es
parse_dependencies _ = ok []

abbrev pub provider_with :
    (id : Text) → JsonEntries → Option Text → Outcome (Option SecretProviderDefinition)
provider_with id raw none = err invalid_manifest
provider_with id raw (some path) = ok (
    some
      (record { id = id; entry = path; description = text_of (field (codes "description") raw) }))

abbrev pub provider_of_id :
    Option Text → JsonEntries → (exports : List Named) → Outcome (Option SecretProviderDefinition)
provider_of_id none raw exports = err invalid_manifest
provider_of_id (some id) raw exports =
    if secret_provider_id_pattern id
    then provider_with id raw (find_named (codes "secretProvider") exports)
    else err invalid_manifest

unfoldable pub parse_secret_provider :
    Option Json → (exports : List Named) → Outcome (Option SecretProviderDefinition)
unfolding secret_provider_id_pattern find_named field
parse_secret_provider none exports = ok none
parse_secret_provider (some (object raw)) exports =
    provider_of_id (text_of (field (codes "id") raw)) raw exports
parse_secret_provider (some _) exports = err invalid_manifest
