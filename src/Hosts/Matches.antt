-- ===== src/Hosts/Matches.antt =====
-- Which hosts an allowlist lets through.
use kody_celld.Prelude.{
  ◌<◌, ◌≢◌, Bool, true, false, ◌&&◌, ◌||◌, Option, none, some, List, [], ◌∷◌, ◌++◌, Text, ends_with,
  ends_with-append, length, length-append, ltb, ◌≡◌, refl, sym, arith, inl, inr, ◌⊎◌, Bool-cases,
  same_iff, subst, append-ends_with, ◌↔◌,
}
use kody_celld.Act.{Result, ok, err}
use kody_celld.Hosts.Ip.{Ip, parse_ip_literal, normal_text}
use kody_celld.Hosts.Allowlist.{
  Entry, EntryError, host, suffix, cidr, in_range, entry_matches, parse_entry, any_matches,
  host_matches_allowlist,
}

-- What an entry lets through: an address by a range of its version, a name by the same name or as a
-- name below a suffix.
abbrev pub Lets : Option Ip → Text → Entry → Type 0
Lets (some ip) name (cidr version network prefix) = in_range ip version network prefix ≡ true
Lets (some ip) name (host h) = ⊥
Lets (some ip) name (suffix s) = ⊥
Lets none name (cidr version network prefix) = ⊥
Lets none name (host h) = name ≡ h
Lets none name (suffix s) = (front : Text) × (front ≢ []) × (name ≡ front ++ s)

abbrev pub Allows : Option Ip → Text → Result EntryError Entry → Type 0
Allows ip name (err e) = ⊥
Allows ip name (ok entry) = Lets ip name entry

longer_front : (front s : Text) → length s < length (front ++ s) → front ≢ []
longer_front [] s h e = omega (arith, h)
longer_front (c ∷ front) s h e = cc e

front_longer : (front s : Text) → front ≢ [] → length s < length (front ++ s)
front_longer [] s h = absurd (h refl)
front_longer (c ∷ front) s h = omega (arith, length-append front s)

suffix_iff :
    (name s : Text)
    → ((ends_with s name && ltb (length s) (length name)) ≡ true)
      ↔ ((front : Text) × (front ≢ []) × (name ≡ front ++ s))
suffix_iff name s = (
  λ h.
      let (front, e) = ends_with-append s name (ground (arith, h)) in
      let longer : length s < length name = ground (arith, h) in
      (front, longer_front front s (subst (λ t. length s < length t) e longer), e),
  λ (front, some_front, e).
      subst (λ t. (ends_with s t && ltb (length s) (length t)) ≡ true) (sym e)
        (ground (arith, append-ends_with s front, front_longer front s some_front)),
)

entry_matches_iff :
    (ip : Option Ip) (name : Text) (r : Result EntryError Entry)
    → (entry_matches ip name r ≡ true) ↔ Allows ip name r
entry_matches_iff none name (err e) = (λ h. cc h, λ h. absurd h)
entry_matches_iff (some ip) name (err e) = (λ h. cc h, λ h. absurd h)
entry_matches_iff none name (ok (cidr version network prefix)) = (λ h. cc h, λ h. absurd h)
entry_matches_iff (some ip) name (ok (cidr version network prefix)) = (λ h. h, λ h. h)
entry_matches_iff (some ip) name (ok (suffix s)) = (λ h. cc h, λ h. absurd h)
entry_matches_iff (some ip) name (ok (host h)) = (λ h. cc h, λ h. absurd h)
entry_matches_iff none name (ok (suffix s)) = suffix_iff name s
entry_matches_iff none name (ok (host h)) = same_iff name h

or_true : (a : Bool) → (a || true) ≡ true
or_true true = refl
or_true false = refl

abbrev pub AnyOf : (Text → Type 0) → List Text → Type 0
AnyOf P [] = ⊥
AnyOf P (x ∷ xs) = P x ⊎ AnyOf P xs

module _ (trim to_lower : Text → Text) where
  any_matches_iff :
      (ip : Option Ip) (name : Text) (entries : List Text)
      → (any_matches trim to_lower ip name entries ≡ true)
        ↔ AnyOf (λ raw. Allows ip name (parse_entry trim to_lower raw)) entries
  unfolding any_matches
  any_matches_iff ip name [] = (λ h. cc h, λ h. absurd h)
  any_matches_iff ip name (raw ∷ entries) =
      let one = entry_matches_iff ip name (parse_entry trim to_lower raw) in
      let rest = any_matches_iff ip name entries in
      (
        λ h. elim (Bool-cases (entry_matches ip name (parse_entry trim to_lower raw))) [
          | inl t ↦ inl (one.0 t)
          | inr f ↦ inr (rest.0 (rw (f) at h))
        ],
        λ h. elim h [
          | inl a ↦ rw (one.1 a) refl
          | inr b ↦ rw (rest.1 b) (or_true (entry_matches ip name (parse_entry trim to_lower raw)))
        ],
      )

  -- A host is let through if and only if one of the entries parses as an entry that allows it: the
  -- same name, a suffix that has something in front of it in the name, or, for an IP literal, a range
  -- of its version that holds it. Names never match ranges, and IP literals never match names.
  pub host_matches_iff :
      (hostname : Text) (entries : List Text)
      → (host_matches_allowlist trim to_lower hostname entries ≡ true)
        ↔ AnyOf
            (λ raw.
              Allows
                (parse_ip_literal trim to_lower (normal_text trim to_lower hostname))
                (normal_text trim to_lower hostname)
                (parse_entry trim to_lower raw))
            entries
  unfolding host_matches_allowlist
  host_matches_iff hostname entries = any_matches_iff _ _ entries
