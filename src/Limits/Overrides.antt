-- ===== src/Limits/Overrides.antt =====
-- What an accepted override means.
use kody_celld.Prelude.{
  ℕ, Bool, true, false, Option, none, some, List, [], ◌∷◌, Text, same, same→eq, if◌then◌else◌, ◌≡◌,
  refl, ap, sym, ◌∙◌, arith, ◌&&◌, map, contains,
}
use kody_celld.Table.{find}
use kody_celld.Table.Laws.{test-find}
use kody_celld.Act.{Result, ok, err, ok-injective}
use kody_celld.Json.{JsonEntries, object, no_entries, entry}
use kody_celld.Limits.Defs.{Quotas}
use kody_celld.Limits.Override.{
  QuotaKey, QuotaOverride, Error, quota_keys, key_text, get, has_text, set_quota, count_of,
  set_entry, set_entries, parse_quota_override, or_default, effective_quotas, quota_runs_per_day,
  quota_execute_ms_per_day, quota_packages, quota_secrets, quota_jobs, quota_blobs,
  quota_blob_bytes, quota_email_messages, quota_email_sends_per_day, quota_email_receives_per_day,
  quota_webhooks, quota_integrations, quota_mcp_servers,
}

abbrev pub or_some : Option ℕ → Option ℕ → Option ℕ
or_some none o = o
or_some (some n) o = some n

-- The number that the entries give the key, the last of them where several do.
unfoldable pub number_at : Text → JsonEntries → Option ℕ
number_at key no_entries = none
number_at key (entry k value entries) =
    or_some (number_at key entries) (if same k key then count_of value else none)

get-effective :
    (k : QuotaKey) (d : Quotas) (o : QuotaOverride)
    → get k (effective_quotas d (some o)) ≡ or_default (o k) (get k d)
unfolding effective_quotas
get-effective quota_runs_per_day d o = refl
get-effective quota_execute_ms_per_day d o = refl
get-effective quota_packages d o = refl
get-effective quota_secrets d o = refl
get-effective quota_jobs d o = refl
get-effective quota_blobs d o = refl
get-effective quota_blob_bytes d o = refl
get-effective quota_email_messages d o = refl
get-effective quota_email_sends_per_day d o = refl
get-effective quota_email_receives_per_day d o = refl
get-effective quota_webhooks d o = refl
get-effective quota_integrations d o = refl
get-effective quota_mcp_servers d o = refl

or_some-if :
    (later : Option ℕ) (hit : Bool) (n : ℕ) (before : Option ℕ)
    → or_some later (if hit then some n else before)
      ≡ or_some (or_some later (if hit then some n else none)) before
or_some-if none true n before = refl
or_some-if none false n before = refl
or_some-if (some m) hit n before = refl

or_some-none : (o : Option ℕ) → or_some o none ≡ o
or_some-none none = refl
or_some-none (some n) = refl

abbrev is_found : Option QuotaKey → Bool
is_found none = false
is_found (some k) = true

set_entry-number_at :
    (key : Text) (found : Option QuotaKey) (count : Option ℕ)
    (later : QuotaOverride → Result Error QuotaOverride) (start o : QuotaOverride) (k : QuotaKey)
    (rest : Option ℕ)
    → find (has_text key) quota_keys ≡ found
    → ((s : QuotaOverride) → later s ≡ ok o → o k ≡ or_some rest (s k))
    → set_entry found count later start ≡ ok o
    → o k ≡ or_some (or_some rest (if same key (key_text k) then count else none)) (start k)
set_entry-number_at key none count later start o k rest e step h = cc h
set_entry-number_at key (some j) none later start o k rest e step h = cc h
set_entry-number_at key (some j) (some n) later start o k rest e step h =
    step (set_quota j n start) h
    ∙ or_some-if rest (same (key_text j) (key_text k)) n (start k)
    ∙ ap (λ t. or_some (or_some rest (if same t (key_text k) then some n else none)) (start k))
        (same→eq (key_text j) key (test-find (has_text key) quota_keys j e))

set_entries-number_at :
    (entries : JsonEntries) (start o : QuotaOverride) (k : QuotaKey)
    → set_entries entries start ≡ ok o
    → o k ≡ or_some (number_at (key_text k) entries) (start k)
unfolding set_entries number_at
set_entries-number_at no_entries start o k h =
    ap (λ (f : QuotaOverride). f k) (sym (ok-injective start o h))
set_entries-number_at (entry key value entries) start o k h =
    set_entry-number_at key (find (has_text key) quota_keys) (count_of value) (set_entries entries)
      start o k (number_at (key_text k) entries) refl (λ s. set_entries-number_at entries s o k) h

-- Under an override that is accepted, a quota is the number that the override gives its name, the
-- last one where several entries have that name, and the default where none has.
pub override_exact :
    (entries : JsonEntries) (o : QuotaOverride) (k : QuotaKey) (d : Quotas)
    → parse_quota_override (object entries) ≡ ok o
    → get k (effective_quotas d (some o)) ≡ or_default (number_at (key_text k) entries) (get k d)
unfolding parse_quota_override
override_exact entries o k d h =
    get-effective k d o
    ∙ ap (λ c. or_default c (get k d))
        (set_entries-number_at entries (λ j. none) o k h
          ∙ or_some-none (number_at (key_text k) entries))

abbrev pub is_count : Option ℕ → Bool
is_count none = false
is_count (some n) = true

-- Each entry has the name of a quota and a count.
unfoldable pub all_counts : JsonEntries → Bool
all_counts no_entries = true
all_counts (entry key value entries) =
    (contains key (map key_text quota_keys) && is_count (count_of value)) && all_counts entries

abbrev pub is_ok : Result Error QuotaOverride → Bool
is_ok (ok o) = true
is_ok (err e) = false

found-contains :
    (key : Text) (ks : List QuotaKey)
    → contains key (map key_text ks) ≡ is_found (find (has_text key) ks)
unfolding find contains
found-contains key [] = refl
found-contains key (k ∷ ks) = ground (arith, found-contains key ks)

set_entry-all_counts :
    (found : Option QuotaKey) (count : Option ℕ)
    (later : QuotaOverride → Result Error QuotaOverride) (start : QuotaOverride) (known rest : Bool)
    → known ≡ is_found found
    → ((s : QuotaOverride) → is_ok (later s) ≡ rest)
    → is_ok (set_entry found count later start) ≡ ((known && is_count count) && rest)
set_entry-all_counts none count later start known rest e step = rw e refl
set_entry-all_counts (some j) none later start known rest e step = rw e refl
set_entry-all_counts (some j) (some n) later start known rest e step =
    rw e (step (set_quota j n start))

set_entries-all_counts :
    (entries : JsonEntries) (start : QuotaOverride)
    → is_ok (set_entries entries start) ≡ all_counts entries
unfolding set_entries all_counts
set_entries-all_counts no_entries start = refl
set_entries-all_counts (entry key value entries) start =
    set_entry-all_counts (find (has_text key) quota_keys) (count_of value) (set_entries entries)
      start _ _ (found-contains key quota_keys) (set_entries-all_counts entries)

-- An override is accepted if and only if each entry has the name of a quota and, as its value, an
-- integer that is not negative.
pub override_accepted :
    (entries : JsonEntries) → is_ok (parse_quota_override (object entries)) ≡ all_counts entries
unfolding parse_quota_override
override_accepted entries = set_entries-all_counts entries (λ k. none)
