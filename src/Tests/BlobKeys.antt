-- ===== src/Tests/BlobKeys.antt =====
-- Blob keys on concrete inputs.
use kody_celld.Prelude.{◌≡◌, ◌≤◌, refl, ◌∷◌, codes, contains, same, split_from, length, All, arith}
use kody_celld.Blobs.Keys.{segments, max_blob_key_length, normalize_blob_key, object_key_for}
use kody_celld.Blobs.Paths.{HasNoSlash, IsName, object_path_safe}

u1-HasNoSlash : HasNoSlash (codes "u1")
u1-HasNoSlash = (λ e. omega arith, (λ e. omega arith, tt))

object_path_safe_example :
    (codes "a/b" ≡ codes "a/b")
    × (1 ≤ length (codes "a/b"))
    × (length (codes "a/b") ≤ max_blob_key_length)
    × (segments (object_key_for (codes "u1") (codes "a/b"))
        ≡ codes "users" ∷ codes "u1" ∷ segments (codes "a/b"))
    × All IsName (segments (codes "a/b"))
unfolding normalize_blob_key split_from contains same
object_path_safe_example =
    object_path_safe (λ t. t) (codes "a/b") (codes "a/b") (codes "u1") refl u1-HasNoSlash
