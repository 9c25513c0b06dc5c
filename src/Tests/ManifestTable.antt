-- ===== src/Tests/ManifestTable.antt =====
-- A manifest with an export and a job.
use kody_celld.Prelude.{
  ◌≡◌, refl, none, some, List, [], ◌∷◌, Text, codes, split_from, same, contains, All,
}
use kody_celld.Act.{ok, err}
use kody_celld.Json.{string, object, JsonEntries, no_entries, entry, field}
use kody_celld.Packages.Paths.{
  normalize_module_path, without_dot_slash, without_slash, walk, segment_of, popped, join_parts,
  invalid_path,
}
use kody_celld.Packages.Manifest.{
  Named, JobDefinition, cron, export_name, set_export, put_named, parse_schedule, job_name_pattern,
  all_chars, is_plain_name, find_named, secret_provider_id_pattern, package_name_pattern,
}
use kody_celld.Packages.Entries.{
  parse_exports, each_export, all_in, each_job, each_dependency, parse_secret_provider,
}
use kody_celld.Packages.Again.{normalized_again}
use kody_celld.Packages.Named.{IsModule, modules_inside}

abbrev whole : Text → Text
whole t = t

normalized_again_example :
    normalize_module_path whole (codes "src/main.ts") ≡ ok (codes "src/main.ts")
unfolding normalize_module_path walk segment_of same join_parts split_from without_dot_slash
    without_slash popped
normalized_again_example =
    normalized_again whole (codes "./src\\lib/..//main.ts") (codes "src/main.ts") refl refl

outside_refused : normalize_module_path whole (codes "a/../../b") ≡ err invalid_path
unfolding normalize_module_path walk segment_of same join_parts split_from without_dot_slash
    without_slash popped
outside_refused = refl

abbrev package_json : JsonEntries
package_json =
    entry (codes "exports")
      (object (entry (codes "./run") (string (codes "./src/run.ts")) no_entries)) no_entries

abbrev daily : JsonEntries
daily =
    entry (codes "type") (string (codes "cron"))
      (entry (codes "expression") (string (codes "0 0 * * *")) no_entries)

abbrev kody : JsonEntries
kody =
    entry (codes "jobs")
      (object (
        entry (codes "daily")
          (object (
            entry (codes "entry") (string (codes "job.ts"))
              (entry (codes "schedule") (object daily) no_entries)))
          no_entries))
      no_entries

abbrev paths : List Text
paths = codes "src/run.ts" ∷ codes "job.ts" ∷ []

abbrev daily_job : JobDefinition
daily_job = record {
  entry = codes "job.ts";
  schedule = cron (codes "0 0 * * *");
  timezone = none;
  enabled = none;
  description = none;
}

modules_inside_example :
    All {A = Named} (λ e. IsModule paths e.1) ((codes "run", codes "src/run.ts") ∷ [])
    × All {A = Text × JobDefinition}
        (λ j. IsModule paths j.1.entry)
        ((codes "daily", daily_job) ∷ [])
unfolding parse_exports each_job each_export all_in export_name set_export put_named field same
    contains normalize_module_path walk segment_of join_parts split_from without_dot_slash
    without_slash popped parse_schedule job_name_pattern all_chars
modules_inside_example =
    modules_inside whole paths package_json kody ((codes "run", codes "src/run.ts") ∷ [])
      ((codes "daily", daily_job) ∷ []) refl refl

-- The test `in` takes the names of `Object.prototype` for files.
inherited_name_taken :
    parse_exports whole [] (entry (codes "exports") (string (codes "constructor")) no_entries)
    ≡ ok ((codes ".", codes "constructor") ∷ [])
unfolding parse_exports each_export all_in field same contains normalize_module_path walk segment_of
    join_parts split_from without_dot_slash without_slash popped
inherited_name_taken = refl

provider_read :
    parse_secret_provider
      (some (object (entry (codes "id") (string (codes "vault")) no_entries)))
      ((codes "secretProvider", codes "p.ts") ∷ [])
    ≡ ok (some (record { id = codes "vault"; entry = codes "p.ts"; description = none }))
unfolding parse_secret_provider secret_provider_id_pattern is_plain_name all_chars find_named field
    same
provider_read = refl

dependencies_read :
    each_dependency (entry (codes "@a/b") (string (codes "*")) no_entries)
    ≡ ok ((codes "@a/b", codes "*") ∷ [])
unfolding each_dependency package_name_pattern is_plain_name all_chars split_from
dependencies_read = refl
