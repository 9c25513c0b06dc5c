-- ===== src/Providers/Store.antt =====
-- The methods of `SecretProviderStore` (src/secrets/provider-store.ts).
use kody_celld.Prelude.{
  ℕ, Bool, true, false, not, ◌+◌, ◌==◌, Option, none, some, List, [], ◌∷◌, ◌++◌, Text, same, leb,
  length, if◌then◌else◌,
}
use kody_celld.Table.{find, select, delete, update, exists, count_if}
use kody_celld.Act.{Act, ◌>>=◌, ◌>>◌, pure, throw, gets, modify}
use kody_celld.Providers.Defs.{
  Binding, ProviderGrant, CachedValue, ProviderCell, ProviderError, secret_provider_not_bound,
  has_provider_id, is_grant_for, is_grant_row, cache_key, has_cache_key, is_cached_for,
}

unfoldable pub get_binding : (provider_id : Text) → ProviderCell → Option Binding
get_binding provider_id s = find (has_provider_id provider_id) s.bindings

unfoldable pub invalidate : (provider_id : Text) → ProviderCell → ProviderCell
invalidate provider_id s = record s { cache = delete (is_cached_for provider_id) s.cache }

pub record BindInput : Type 0 where
  pub provider_id : Text
  pub package_name : Text
  pub door_secret_name : Text
  pub config : List (Text × Text)
  pub locked : Option Bool

-- `input.locked ?? existing?.locked ?? false`
abbrev pub locked_of : Option Bool → Option Binding → Bool
locked_of (some locked) existing = locked
locked_of none (some row) = row.locked
locked_of none none = false

abbrev pub rebind : BindInput → (locked : Bool) → (now : ℕ) → Binding → Binding
rebind input locked now row = record row {
  package_name = input.package_name;
  door_secret_name = input.door_secret_name;
  config = input.config;
  locked = locked;
  updated_at = now;
}

abbrev pub new_binding : BindInput → (locked : Bool) → (now : ℕ) → Binding
new_binding input locked now = record {
  provider_id = input.provider_id;
  package_name = input.package_name;
  door_secret_name = input.door_secret_name;
  config = input.config;
  locked = locked;
  created_at = now;
  updated_at = now;
}

-- INSERT … ON CONFLICT(provider_id) DO UPDATE
abbrev pub upsert_binding :
    BindInput → Option Binding → (locked : Bool) → (now : ℕ) → List Binding → List Binding
upsert_binding input none locked now rows = new_binding input locked now ∷ rows
upsert_binding input (some existing) locked now rows =
    update (has_provider_id input.provider_id) (rebind input locked now) rows

-- The grants of a provider count for one package that serves it.
abbrev pub grants_after : BindInput → Option Binding → List ProviderGrant → List ProviderGrant
grants_after input none rows = rows
grants_after input (some existing) rows =
    if not (same existing.package_name input.package_name)
    then delete (is_grant_for input.provider_id) rows
    else rows

abbrev pub bind_over : BindInput → Option Binding → (now : ℕ) → ProviderCell → ProviderCell
bind_over input existing now s = record s {
  bindings = upsert_binding input existing (locked_of input.locked existing) now s.bindings;
  grants = grants_after input existing s.grants;
}

unfoldable pub bind : BindInput → (now : ℕ) → ProviderCell → ProviderCell
unfolding get_binding invalidate
bind input now s =
    invalidate input.provider_id (bind_over input (get_binding input.provider_id s) now s)

abbrev pub set_locked_row : (locked : Bool) → (now : ℕ) → Binding → Binding
set_locked_row locked now row = record row { locked = locked; updated_at = now }

unfoldable pub set_locked :
    (provider_id : Text) (locked : Bool) (now : ℕ) → Act ProviderCell ProviderError (Option Binding)
unfolding invalidate get_binding
set_locked provider_id locked now = do
  written ← gets (λ s. count_if (has_provider_id provider_id) s.bindings)
  modify (λ s. record s {
    bindings = update (has_provider_id provider_id) (set_locked_row locked now) s.bindings;
  })
  if written == 0 then throw secret_provider_not_bound else pure tt
  modify (invalidate provider_id)
  gets (get_binding provider_id)

unfoldable pub is_granted : (provider_id canonical_ref package_name : Text) → ProviderCell → Bool
is_granted provider_id canonical_ref package_name s =
    exists (is_grant_row provider_id canonical_ref package_name) s.grants

abbrev pub permits_package :
    (locked : Bool)
    → (provider_id canonical_ref : Text) → (package_name : Option Text) → ProviderCell
    → Bool
permits_package false provider_id canonical_ref package_name s = true
permits_package true provider_id canonical_ref none s = false
permits_package true provider_id canonical_ref (some package_name) s =
    is_granted provider_id canonical_ref package_name s

unfoldable pub permits :
    Binding → (canonical_ref : Text) → (package_name : Option Text) → ProviderCell → Bool
unfolding is_granted
permits binding canonical_ref package_name s =
    permits_package binding.locked binding.provider_id canonical_ref package_name s

unfoldable pub unbind : (provider_id : Text) → ProviderCell → ProviderCell
unfolding invalidate
unbind provider_id s = invalidate provider_id (record s {
  bindings = delete (has_provider_id provider_id) s.bindings;
  grants = delete (is_grant_for provider_id) s.grants;
})

-- INSERT … ON CONFLICT DO NOTHING
abbrev pub insert_grant_row :
    (known : Bool) → ProviderGrant → List ProviderGrant → List ProviderGrant
insert_grant_row true row rows = rows
insert_grant_row false row rows = row ∷ rows

unfoldable pub grant_row :
    (provider_id canonical_ref package_name : Text) (now : ℕ) → ProviderCell → ProviderCell
unfolding is_granted
grant_row provider_id canonical_ref package_name now s = record s {
  grants =
      insert_grant_row (is_granted provider_id canonical_ref package_name s)
        (record {
          provider_id = provider_id;
          canonical_ref = canonical_ref;
          package_name = package_name;
          created_at = now;
        })
        s.grants;
}

unfoldable pub revoke_grant :
    (provider_id canonical_ref package_name : Text) → ProviderCell → ProviderCell
unfolding invalidate
revoke_grant provider_id canonical_ref package_name s =
    invalidate provider_id
      (record s { grants = delete (is_grant_row provider_id canonical_ref package_name) s.grants })

abbrev pub is_served_by : (package_name : Text) → Binding → Bool
is_served_by package_name row = same row.package_name package_name

-- `for (const row of rows) this.unbind(row.provider_id)`
unfoldable pub unbind_all : List Binding → ProviderCell → ProviderCell
unfolding unbind
unbind_all [] s = s
unbind_all (row ∷ rows) s = unbind_all rows (unbind row.provider_id s)

unfoldable pub unbind_package : (package_name : Text) → ProviderCell → ProviderCell
unfolding unbind_all
unbind_package package_name s = unbind_all (select (is_served_by package_name) s.bindings) s

-- An entry that has expired is dropped.
abbrev pub fresh :
    Option (Text × CachedValue)
    → (key : Text) → (now : ℕ) → ProviderCell
    → Option CachedValue × ProviderCell
fresh none key now s = (none, s)
fresh (some (key', hit)) key now s =
    if leb hit.expires_at now
    then (none, record s { cache = delete (has_cache_key key) s.cache })
    else (some hit, s)

unfoldable pub cache_get :
    (provider_id ref : Text) (now : ℕ) → ProviderCell → Option CachedValue × ProviderCell
cache_get provider_id ref now s =
    fresh (find (has_cache_key (cache_key provider_id ref)) s.cache) (cache_key provider_id ref) now
      s

abbrev pub write_entry : CachedValue → Text × CachedValue → Text × CachedValue
write_entry cached entry = (entry.0, cached)

-- `map.set(key, cached)`
unfoldable pub set_entry :
    (key : Text) → CachedValue → List (Text × CachedValue) → List (Text × CachedValue)
set_entry key cached entries =
    if exists (has_cache_key key) entries
    then update (has_cache_key key) (write_entry cached) entries
    else entries ++ (key, cached) ∷ []

-- The value is found under its canonical name too.
abbrev pub set_both :
    (provider_id ref : Text) → CachedValue → List (Text × CachedValue) → List (Text × CachedValue)
set_both provider_id ref cached entries =
    if same cached.canonical_ref ref
    then set_entry (cache_key provider_id ref) cached entries
    else set_entry (cache_key provider_id cached.canonical_ref) cached
        (set_entry (cache_key provider_id ref) cached entries)

abbrev pub room : List (Text × CachedValue) → List (Text × CachedValue)
room entries = if leb 256 (length entries) then [] else entries

unfoldable pub cache_put :
    (provider_id ref value : Text) (hosts : List Text) (canonical_ref : Text) (ttl_ms now : ℕ)
    → ProviderCell
    → ProviderCell
unfolding set_entry
cache_put provider_id ref value hosts canonical_ref ttl_ms now s =
    if leb ttl_ms 0 then s else record s {
      cache =
          set_both provider_id ref
            (record {
              value = value;
              hosts = hosts;
              canonical_ref = canonical_ref;
              expires_at = now + ttl_ms;
            })
            (room s.cache);
    }
