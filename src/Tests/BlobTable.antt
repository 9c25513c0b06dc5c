-- ===== src/Tests/BlobTable.antt =====
-- The index of stored objects at its quotas.
use kody_celld.Prelude.{refl, none, [], ◌∷◌, codes}
use kody_celld.Limits.Defs.{Quotas, default_quotas}
use kody_celld.Blobs.Index.{PutInput, new_blob, blob_bytes, blob_index_put}
use kody_celld.Blobs.Quota.{IsWithin, blob_quotas_kept}

abbrev quotas : Quotas
quotas = record default_quotas { blobs = 2; blob_bytes = 10 }

abbrev input : PutInput
input = record {
  key = codes "a";
  size = 7;
  content_type = [];
  sha256 = [];
  etag = [];
  package_name = none;
  metadata = [];
}

blob_quotas_kept_example :
    IsWithin quotas
      (blob_index_put quotas 9 (record input { key = codes "b" }) (new_blob input 3 ∷ [])).1
unfolding blob_bytes
blob_quotas_kept_example =
    blob_quotas_kept quotas 9 (record input { key = codes "b" }) (new_blob input 3 ∷ []) (tt, tt)
      (refl, refl)
