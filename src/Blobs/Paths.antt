-- ===== src/Blobs/Paths.antt =====
-- Where the objects of a user lie in the bucket.
use kody_celld.Prelude.{
  split_from-first, false, List, [], ◌∷◌, ◌++◌, Text, codes, same, contains, split_from, length,
  ◌≡◌, ◌≢◌, ◌≤◌, refl, ap, sym, arith, subst, All,
}
use kody_celld.Act.{ok}
use kody_celld.Blobs.Keys.{
  slash, forbidden, some_forbidden, segments, check_key, normalize_blob_key, object_key_for,
  max_blob_key_length,
}

abbrev pub HasNoSlash : Text → Type 0
HasNoSlash user_id = All (λ c. c ≢ slash) user_id

-- The separator is at the first slash.
cut_unique :
    (a b k l : Text)
    → HasNoSlash a
    → HasNoSlash b
    → a ++ slash ∷ k ≡ b ++ slash ∷ l
    → (a ≡ b) × (k ≡ l)
cut_unique [] [] k l p q e = (refl, ground (arith, e))
cut_unique [] (c ∷ b) k l p q e = absurd (ground (arith, e, q.0))
cut_unique (c ∷ a) [] k l p q e = absurd (ground (arith, e, p.0))
cut_unique (c ∷ a) (d ∷ b) k l p q e =
    let (same_user, same_key) = cut_unique a b k l p.1 q.1 (ground (arith, e)) in
    (ground (arith, e, same_user), same_key)

-- The objects of two users, or two keys of one user, never share a name in the bucket.
pub object_key_for-injective :
    (u v k l : Text)
    → HasNoSlash u
    → HasNoSlash v
    → object_key_for u k ≡ object_key_for v l
    → (u ≡ v) × (k ≡ l)
object_key_for-injective u v k l p q e = cut_unique u v k l p q (ground (arith, e))

checked :
    (text key : Text)
    → check_key text ≡ ok key
    → (key ≡ text)
      × (1 ≤ length key)
      × (length key ≤ max_blob_key_length)
      × (some_forbidden (segments key) ≡ false)
unfolding check_key
checked [] key h = cc h
checked (c ∷ cs) key h =
    let same_key : c ∷ cs ≡ key = ground (arith, h) in
    let short : length (c ∷ cs) ≤ max_blob_key_length = ground (arith, h) in
    let allowed : some_forbidden (segments (c ∷ cs)) ≡ false = ground (arith, h) in
    (
      sym same_key,
      subst (λ k. 1 ≤ length k) same_key (omega arith),
      subst (λ k. length k ≤ max_blob_key_length) same_key short,
      subst (λ k. some_forbidden (segments k) ≡ false) same_key allowed,
    )

-- A name that stays in its directory.
abbrev pub IsName : Text → Type 0
IsName s = (s ≢ []) × (s ≢ codes ".") × (s ≢ codes "..")

allowed-IsName : (s : Text) → contains s forbidden ≡ false → IsName s
unfolding same contains
allowed-IsName s h = (
  λ e. cc (subst (λ t. contains t forbidden ≡ false) e h),
  λ e. cc (subst (λ t. contains t forbidden ≡ false) e h),
  λ e. cc (subst (λ t. contains t forbidden ≡ false) e h),
)

None-forbidden : (words : List Text) → some_forbidden words ≡ false → All IsName words
unfolding some_forbidden
None-forbidden [] h = tt
None-forbidden (w ∷ words) h =
    (allowed-IsName w (ground arith), None-forbidden words (ground arith))

-- A key that is accepted is the trimmed input, has 1 to 512 characters, and names a path of the
-- directory of its user: the segments of the object's name are `users`, the user's id and the
-- segments of the key, and none of the key's is empty, `.` or `..`.
pub object_path_safe :
    (trim : Text → Text) (input key user_id : Text)
    → normalize_blob_key trim input ≡ ok key
    → HasNoSlash user_id
    → (key ≡ trim input)
      × (1 ≤ length key)
      × (length key ≤ max_blob_key_length)
      × (segments (object_key_for user_id key) ≡ codes "users" ∷ user_id ∷ segments key)
      × All IsName (segments key)
unfolding normalize_blob_key split_from
object_path_safe trim input key user_id h p =
    let (same_key, positive, short, none_forbidden) = checked (trim input) key h in
    (
      same_key,
      positive,
      short,
      ap (λ rest. codes "users" ∷ rest) (split_from-first slash [] user_id key p),
      None-forbidden (segments key) none_forbidden,
    )
