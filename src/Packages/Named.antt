-- ===== src/Packages/Named.antt =====
-- The modules that a manifest names are modules of the package.
use kody_celld.Prelude.{
  Bool, true, false, Option, none, some, List, [], ◌∷◌, Text, codes, same, ◌≡◌, refl, subst, arith,
  inl, inr, All, Bool-cases, if◌then◌else◌,
}
use kody_celld.Act.{ok, err, ok-injective}
use kody_celld.Results.{◌>>=◌, passed}
use kody_celld.Json.{
  Json, null, fractional, boolean, integral, string, array, object, JsonEntries, no_entries, entry,
  field,
}
use kody_celld.Packages.Paths.{invalid_manifest, normalize_module_path}
use kody_celld.Packages.Manifest.{
  Outcome, Named, is_in, export_name, set_export, put_named, JobDefinition, parse_schedule,
  job_name_pattern,
}
use kody_celld.Packages.Normal.{IsNormal, normalize_module_path-IsNormal}
use kody_celld.Packages.Entries.{
  path_of, each_export, only_export, main_export, read_exports, all_in, parse_exports, job_at,
  job_of_entry, job_of, each_job, parse_jobs,
}

-- The module lies in the package: its path is normal, and `in` finds it in the files.
abbrev pub IsModule : (files : List Text) → Text → Type 0
IsModule files path = IsNormal path × (is_in files path ≡ true)

-- A guarded result that is there has passed its guard.
chosen :
    {A : Type 0} (b : Bool) (a : Outcome A) (out : A)
    → (if b then a else err invalid_manifest) ≡ ok out
    → (b ≡ true) × (a ≡ ok out)
chosen true a out h = (refl, h)
chosen false a out h = absurd (cc h)

put_named-All :
    (P : Named → Type 0) (name path : Text) (exports : List Named)
    → P (name, path)
    → All P exports
    → All P (put_named name path exports)
unfolding put_named
put_named-All P name path [] p h = (p, tt)
put_named-All P name path (e ∷ es) p h = elim (Bool-cases (same e.0 name)) [
  | inl t ↦ rw t (p, h.1)
  | inr f ↦ rw f (h.0, put_named-All P name path es p h.1)
]

abbrev HasNormal : Named → Type 0
HasNormal e = IsNormal e.1

set_export-All :
    (name path : Text) (exports : List Named)
    → IsNormal path
    → All HasNormal exports
    → All HasNormal (set_export name path exports)
unfolding set_export
set_export-All name path exports p h = elim (Bool-cases (same name (codes "__proto__"))) [
  | inl t ↦ rw t h
  | inr f ↦ rw f (put_named-All HasNormal name path exports p h)
]

module _ (trim : Text → Text) where
  path_of-IsNormal : (value : Json) (path : Text) → path_of trim value ≡ ok path → IsNormal path
  path_of-IsNormal (string text) path h = normalize_module_path-IsNormal trim text path h
  path_of-IsNormal null path h = absurd (cc h)
  path_of-IsNormal fractional path h = absurd (cc h)
  path_of-IsNormal (boolean b) path h = absurd (cc h)
  path_of-IsNormal (integral n) path h = absurd (cc h)
  path_of-IsNormal (array vs) path h = absurd (cc h)
  path_of-IsNormal (object es) path h = absurd (cc h)

  each_export-All :
      (es : JsonEntries) (exports out : List Named)
      → All HasNormal exports
      → each_export trim es exports ≡ ok out
      → All HasNormal out
  unfolding each_export
  each_export-All no_entries exports out h got = subst (All HasNormal) (ok-injective _ _ got) h
  each_export-All (entry key value es) exports out h got =
      passed (All HasNormal out) (path_of trim value)
        (λ path. each_export trim es (set_export (export_name key) path exports)) out
        (λ path first rest.
          each_export-All es (set_export (export_name key) path exports) out
            (set_export-All (export_name key) path exports (path_of-IsNormal value path first) h)
            rest)
        got

  only_export-All :
      (text : Text) (out : List Named) → only_export trim text ≡ ok out → All HasNormal out
  only_export-All text out got =
      passed (All HasNormal out) (normalize_module_path trim text) (λ p. ok ((codes ".", p) ∷ []))
        out
        (λ p first rest.
          subst (All HasNormal) (ok-injective _ _ rest)
            (normalize_module_path-IsNormal trim text p first, tt))
        got

  main_export-All :
      (main : Option Json) (out : List Named) → main_export trim main ≡ ok out → All HasNormal out
  main_export-All (some (string path)) out got = only_export-All path out got
  main_export-All none out got = subst (All HasNormal) (ok-injective _ _ got) tt
  main_export-All (some null) out got = subst (All HasNormal) (ok-injective _ _ got) tt
  main_export-All (some fractional) out got = subst (All HasNormal) (ok-injective _ _ got) tt
  main_export-All (some (boolean b)) out got = subst (All HasNormal) (ok-injective _ _ got) tt
  main_export-All (some (integral n)) out got = subst (All HasNormal) (ok-injective _ _ got) tt
  main_export-All (some (array vs)) out got = subst (All HasNormal) (ok-injective _ _ got) tt
  main_export-All (some (object es)) out got = subst (All HasNormal) (ok-injective _ _ got) tt

  read_exports-All :
      (exports main : Option Json) (out : List Named)
      → read_exports trim exports main ≡ ok out
      → All HasNormal out
  read_exports-All (some (string path)) main out got = only_export-All path out got
  read_exports-All (some (object es)) main out got = each_export-All es [] out tt got
  read_exports-All none main out got = main_export-All main out got
  read_exports-All (some null) main out got = main_export-All main out got
  read_exports-All (some fractional) main out got = main_export-All main out got
  read_exports-All (some (boolean b)) main out got = main_export-All main out got
  read_exports-All (some (integral n)) main out got = main_export-All main out got
  read_exports-All (some (array vs)) main out got = main_export-All main out got

  all_in-IsModule :
      (files : List Text) (exports : List Named)
      → All HasNormal exports
      → all_in files exports ≡ true
      → All (λ e. IsModule files e.1) exports
  unfolding all_in
  all_in-IsModule files [] h i = tt
  all_in-IsModule files (e ∷ es) h i =
      ((h.0, ground (arith, i)), all_in-IsModule files es h.1 (ground (arith, i)))

  settled_exports :
      (files : List Text) (exports out : List Named)
      → All HasNormal exports
      → (if all_in files exports then ok exports else err invalid_manifest) ≡ ok out
      → All (λ e. IsModule files e.1) out
  settled_exports files exports out h got =
      let (inside, same_list) = chosen (all_in files exports) (ok exports) out got in
      subst (All (λ e. IsModule files e.1)) (ok-injective _ _ same_list)
        (all_in-IsModule files exports h inside)

  exports_named :
      (files : List Text) (json : JsonEntries) (exports : List Named)
      → parse_exports trim files json ≡ ok exports
      → All (λ e. IsModule files e.1) exports
  unfolding parse_exports
  exports_named files json exports got =
      let given = field (codes "exports") json in
      let main = field (codes "main") json in
      passed (All (λ e. IsModule files e.1) exports) (read_exports trim given main)
        (λ es. if all_in files es then ok es else err invalid_manifest) exports
        (λ es first rest.
          settled_exports files es exports (read_exports-All given main es first) rest)
        got

  -- A job: its entry is a module of the package, its schedule what its text says.
  abbrev pub IsJob : (files : List Text) → JobDefinition → Type 0
  IsJob files job = IsModule files job.entry

  job_at-IsJob :
      (files : List Text) (raw : JsonEntries) (path : Text) (job : JobDefinition)
      → IsNormal path
      → job_at trim files raw path ≡ ok job
      → IsJob files job
  job_at-IsJob files raw path job h got =
      let (inside, made) = chosen (is_in files path) _ job got in
      passed (IsJob files job) (parse_schedule trim (field (codes "schedule") raw)) _ job
        (λ schedule first rest.
          subst (λ j. IsModule files j.entry) (ok-injective _ _ rest) (h, inside))
        made

  job_of_entry-IsJob :
      (files : List Text) (raw : JsonEntries) (given : Option Json) (job : JobDefinition)
      → job_of_entry trim files raw given ≡ ok job
      → IsJob files job
  job_of_entry-IsJob files raw (some (string text)) job got =
      passed (IsJob files job) (normalize_module_path trim text) (λ p. job_at trim files raw p) job
        (λ p first rest.
          job_at-IsJob files raw p job (normalize_module_path-IsNormal trim text p first) rest)
        got
  job_of_entry-IsJob files raw none job got = absurd (cc got)
  job_of_entry-IsJob files raw (some null) job got = absurd (cc got)
  job_of_entry-IsJob files raw (some fractional) job got = absurd (cc got)
  job_of_entry-IsJob files raw (some (boolean b)) job got = absurd (cc got)
  job_of_entry-IsJob files raw (some (integral n)) job got = absurd (cc got)
  job_of_entry-IsJob files raw (some (array vs)) job got = absurd (cc got)
  job_of_entry-IsJob files raw (some (object es)) job got = absurd (cc got)

  job_of-IsJob :
      (files : List Text) (name : Text) (raw : Json) (job : JobDefinition)
      → job_of trim files name raw ≡ ok job
      → IsJob files job
  job_of-IsJob files name (object raw) job got =
      job_of_entry-IsJob files raw (field (codes "entry") raw) job
        (chosen (job_name_pattern name) _ job got).1
  job_of-IsJob files name null job got = absurd (cc got)
  job_of-IsJob files name fractional job got = absurd (cc got)
  job_of-IsJob files name (boolean b) job got = absurd (cc got)
  job_of-IsJob files name (integral n) job got = absurd (cc got)
  job_of-IsJob files name (string t) job got = absurd (cc got)
  job_of-IsJob files name (array vs) job got = absurd (cc got)

  each_job-IsJob :
      (files : List Text) (es : JsonEntries) (jobs : List (Text × JobDefinition))
      → each_job trim files es ≡ ok jobs
      → All (λ j. IsJob files j.1) jobs
  unfolding each_job
  each_job-IsJob files no_entries jobs got =
      subst (All (λ j. IsJob files j.1)) (ok-injective _ _ got) tt
  each_job-IsJob files (entry name raw es) jobs got =
      passed (All (λ j. IsJob files j.1) jobs) (job_of trim files name raw)
        (λ job. each_job trim files es >>= (λ rest. ok ((name, job) ∷ rest))) jobs
        (λ job first more.
          passed (All (λ j. IsJob files j.1) jobs) (each_job trim files es)
            (λ rest. ok ((name, job) ∷ rest)) jobs
            (λ rest second last.
              subst (All (λ j. IsJob files j.1)) (ok-injective _ _ last)
                (job_of-IsJob files name raw job first, each_job-IsJob files es rest second))
            more)
        got

  parse_jobs-IsJob :
      (files : List Text) (given : Option Json) (jobs : List (Text × JobDefinition))
      → parse_jobs trim files given ≡ ok jobs
      → All (λ j. IsJob files j.1) jobs
  parse_jobs-IsJob files none jobs got =
      subst (All (λ j. IsJob files j.1)) (ok-injective _ _ got) tt
  parse_jobs-IsJob files (some (object es)) jobs got = each_job-IsJob files es jobs got
  parse_jobs-IsJob files (some null) jobs got = absurd (cc got)
  parse_jobs-IsJob files (some fractional) jobs got = absurd (cc got)
  parse_jobs-IsJob files (some (boolean b)) jobs got = absurd (cc got)
  parse_jobs-IsJob files (some (integral n)) jobs got = absurd (cc got)
  parse_jobs-IsJob files (some (string t)) jobs got = absurd (cc got)
  parse_jobs-IsJob files (some (array vs)) jobs got = absurd (cc got)

  -- Where the exports and the jobs of a manifest are accepted, every export and the entry of every job
  -- is a path inside the package, none of whose names is empty, `.` or `..`, and the test `in` finds it
  -- in the package's files.
  pub modules_inside :
      (files : List Text) (json jobs_json : JsonEntries) (exports : List Named)
      (jobs : List (Text × JobDefinition))
      → parse_exports trim files json ≡ ok exports
      → parse_jobs trim files (field (codes "jobs") jobs_json) ≡ ok jobs
      → All (λ e. IsModule files e.1) exports × All (λ j. IsModule files j.1.entry) jobs
  modules_inside files json jobs_json exports jobs e j = (
    exports_named files json exports e,
    parse_jobs-IsJob files (field (codes "jobs") jobs_json) jobs j,
  )
