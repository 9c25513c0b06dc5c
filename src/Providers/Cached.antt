-- ===== src/Providers/Cached.antt =====
-- What the cache of a cell gives back, and what authorizing and caching leave of a cell.
use kody_celld.Prelude.{
  ℕ, ◌+◌, ◌≤◌, Bool, true, false, Option, none, some, List, [], ◌∷◌, ◌++◌, Text, leb, ◌≡◌, refl, ap,
  subst, sym, arith, inl, inr, Bool-cases, same, same_refl, same→eq,
}
use kody_celld.Table.{find, update, exists, delete}
use kody_celld.Providers.Defs.{Binding, CachedValue, ProviderCell, cache_key, has_cache_key}
use kody_celld.Providers.Store.{
  fresh, cache_get, write_entry, set_entry, set_both, room, cache_put, get_binding, permits,
}
use kody_celld.Providers.Cell.{
  check_permits, authorize_binding, secret_provider_authorize, canonical_of,
}

-- The bindings and the grants are those of the other cell, and its empty cache is empty still.
abbrev pub SameRights : (s t : ProviderCell) → Type 0
SameRights s t = (t.bindings ≡ s.bindings) × (t.grants ≡ s.grants)

fresh-SameRights :
    (o : Option (Text × CachedValue)) (key : Text) (now : ℕ) (s : ProviderCell)
    → SameRights s (fresh o key now s).1
fresh-SameRights none key now s = (refl, refl)
fresh-SameRights (some (key', hit)) key now s = elim (Bool-cases (leb hit.expires_at now)) [
  | inl t ↦ rw t (refl, refl)
  | inr f ↦ rw f (refl, refl)
]

fresh-empty :
    (o : Option (Text × CachedValue)) (key : Text) (now : ℕ) (s : ProviderCell)
    → s.cache ≡ []
    → (fresh o key now s).1.cache ≡ []
unfolding delete
fresh-empty none key now s h = h
fresh-empty (some (key', hit)) key now s h = elim (Bool-cases (leb hit.expires_at now)) [
  | inl t ↦ rw t (ap (delete (has_cache_key key)) h)
  | inr f ↦ rw f h
]

check_permits-state :
    (b : Binding) (read : Option CachedValue × ProviderCell) (provider_id ref : Text)
    (package_name : Option Text) (strict : Bool)
    → (check_permits b read provider_id ref package_name strict).1 ≡ read.1
check_permits-state b (cached, s) provider_id ref package_name strict =
    elim (Bool-cases (permits b (canonical_of cached ref) package_name s)) [
      | inl t ↦ rw t refl
      | inr f ↦ rw f refl
    ]

-- An authorization changes neither bindings nor grants, and leaves an empty cache empty.
abbrev pub IsReading : (s t : ProviderCell) → Type 0
IsReading s t = SameRights s t × (s.cache ≡ [] → t.cache ≡ [])

cache_get-IsReading :
    (provider_id ref : Text) (now : ℕ) (s : ProviderCell)
    → IsReading s (cache_get provider_id ref now s).1
unfolding cache_get
cache_get-IsReading provider_id ref now s =
    let key = cache_key provider_id ref in
    (
      fresh-SameRights (find (has_cache_key key) s.cache) key now s,
      fresh-empty (find (has_cache_key key) s.cache) key now s,
    )

authorize_binding-IsReading :
    (o : Option Binding) (provider_id ref : Text) (package_name : Option Text) (strict : Bool)
    (now : ℕ) (s : ProviderCell)
    → IsReading s (authorize_binding o provider_id ref package_name strict now s).1
authorize_binding-IsReading none provider_id ref package_name strict now s = ((refl, refl), λ e. e)
authorize_binding-IsReading (some b) provider_id ref package_name strict now s =
    rw (check_permits-state b (cache_get provider_id ref now s) provider_id ref package_name strict)
      (cache_get-IsReading provider_id ref now s)

pub secret_provider_authorize-IsReading :
    (provider_id ref : Text) (package_name : Option Text) (strict : Bool) (now : ℕ)
    (s : ProviderCell)
    → IsReading s (secret_provider_authorize provider_id ref package_name strict now s).1
unfolding secret_provider_authorize
secret_provider_authorize-IsReading provider_id ref package_name strict now s =
    authorize_binding-IsReading (get_binding provider_id s) provider_id ref package_name strict now
      s

pub cache_put-SameRights :
    (provider_id ref value : Text) (hosts : List Text) (canonical_ref : Text) (ttl_ms now : ℕ)
    (s : ProviderCell)
    → SameRights s (cache_put provider_id ref value hosts canonical_ref ttl_ms now s)
unfolding cache_put
cache_put-SameRights provider_id ref value hosts canonical_ref ttl_ms now s =
    elim (Bool-cases (leb ttl_ms 0)) [ inl t ↦ rw t (refl, refl) | inr f ↦ rw f (refl, refl) ]

-- Nothing is cached for no time.
pub cache_put-none :
    (provider_id ref value : Text) (hosts : List Text) (canonical_ref : Text) (ttl_ms now : ℕ)
    (s : ProviderCell)
    → ttl_ms ≡ 0
    → cache_put provider_id ref value hosts canonical_ref ttl_ms now s ≡ s
unfolding cache_put
cache_put-none provider_id ref value hosts canonical_ref ttl_ms now s e =
    let off : leb ttl_ms 0 ≡ true = ground (arith, e) in rw off refl

find-update_key :
    (key : Text) (cached : CachedValue) (entries : List (Text × CachedValue))
    → exists (has_cache_key key) entries ≡ true
    → (key' : Text) × (find
          (has_cache_key key)
          (update (has_cache_key key) (write_entry cached) entries)
        ≡ some (key', cached))
unfolding find update exists
find-update_key key cached [] h = absurd (cc h)
find-update_key key cached (e ∷ es) h = elim (Bool-cases (has_cache_key key e)) [
  | inl t ↦ (e.0, rw (t, t) refl)
  | inr f ↦
      let (key', here) = find-update_key key cached es (ground (arith, h, f)) in
      (key', rw (f, f) here)
]

find-append_key :
    (key : Text) (cached : CachedValue) (entries : List (Text × CachedValue))
    → exists (has_cache_key key) entries ≡ false
    → find (has_cache_key key) (entries ++ (key, cached) ∷ []) ≡ some (key, cached)
unfolding find exists
find-append_key key cached [] h = rw (same_refl key) refl
find-append_key key cached (e ∷ es) h =
    let other : has_cache_key key e ≡ false = ground (arith, h) in
    rw other (find-append_key key cached es (ground (arith, h)))

-- A value that was set is found under its key.
find-set_entry :
    (key : Text) (cached : CachedValue) (entries : List (Text × CachedValue))
    → (key' : Text) × (find (has_cache_key key) (set_entry key cached entries)
        ≡ some (key', cached))
unfolding set_entry
find-set_entry key cached entries = elim (Bool-cases (exists (has_cache_key key) entries)) [
  | inl t ↦ rw t (find-update_key key cached entries t)
  | inr f ↦ rw f (key, find-append_key key cached entries f)
]

find-set_both :
    (provider_id ref : Text) (cached : CachedValue) (entries : List (Text × CachedValue))
    → (key' : Text) × (find
          (has_cache_key (cache_key provider_id cached.canonical_ref))
          (set_both provider_id ref cached entries)
        ≡ some (key', cached))
find-set_both provider_id ref cached entries = elim (Bool-cases (same cached.canonical_ref ref)) [
  | inl t ↦
      let own : cached.canonical_ref ≡ ref = same→eq cached.canonical_ref ref t in
      rw t (
        subst
          (λ c.
            (key' : Text) × (find (has_cache_key (cache_key provider_id c))
                (set_entry (cache_key provider_id ref) cached entries)
              ≡ some (key', cached)))
          (sym own) (find-set_entry (cache_key provider_id ref) cached entries))
  | inr f ↦ rw f (
      find-set_entry (cache_key provider_id cached.canonical_ref) cached
        (set_entry (cache_key provider_id ref) cached entries))
]

fresh-hit :
    (o : Option (Text × CachedValue)) (key key' : Text) (now : ℕ) (s : ProviderCell)
    (cached : CachedValue)
    → o ≡ some (key', cached)
    → leb cached.expires_at now ≡ false
    → (fresh o key now s).0 ≡ some cached
fresh-hit o key key' now s cached e f = rw (e, f) refl

-- What a provider gave is read back under its canonical name, within its time.
pub cache_put-read :
    (provider_id ref value : Text) (hosts : List Text) (canonical_ref : Text) (ttl_ms now : ℕ)
    (s : ProviderCell)
    → 1 ≤ ttl_ms
    → (cached : CachedValue) × ((cache_get provider_id canonical_ref now
          (cache_put provider_id ref value hosts canonical_ref ttl_ms now s)).0
        ≡ some cached)
      × (cached.canonical_ref ≡ canonical_ref)
unfolding cache_get cache_put
cache_put-read provider_id ref value hosts canonical_ref ttl_ms now s positive =
    let on : leb ttl_ms 0 ≡ false = ground (arith, positive) in
    let cached : CachedValue = record {
      value = value;
      hosts = hosts;
      canonical_ref = canonical_ref;
      expires_at = now + ttl_ms;
    } in
    let (key', here) = find-set_both provider_id ref cached (room s.cache) in
    let live : leb (now + ttl_ms) now ≡ false = ground (arith, positive) in
    rw on
      (cached, fresh-hit _ (cache_key provider_id canonical_ref) key' now _ cached here live, refl)

-- An empty cache has no value.
pub cache_get-none :
    (provider_id ref : Text) (now : ℕ) (s : ProviderCell)
    → s.cache ≡ []
    → (cache_get provider_id ref now s).0 ≡ none
unfolding cache_get find
cache_get-none provider_id ref now s e =
    ap
      (λ (c : List (Text × CachedValue)).
        (fresh (find (has_cache_key (cache_key provider_id ref)) c) (cache_key provider_id ref) now
          s).0)
      e
