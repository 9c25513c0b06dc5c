-- ===== src/Blobs/Index.antt =====
-- The index of stored objects in a user's cell: `assertBlobQuota`, `blobReserve`, `blobIndexPut`,
-- `blobIndexGet` and `blobIndexDelete` of src/cells/user-cell.ts.
use kody_celld.Prelude.{
  ℕ, ◌+◌, ◌-◌, Bool, false, not, ◌&&◌, Option, none, some, List, [], ◌∷◌, Text, same, ltb, ◌==◌,
  length, if◌then◌else◌,
}
use kody_celld.Table.{find, update, delete, exists}
use kody_celld.Act.{Act, Result, ok, err}
use kody_celld.Limits.Defs.{Quotas, within_quota}

-- The table `blobs`; the JSON of the metadata is its entries.
pub record BlobRow : Type 0 where
  pub key : Text
  pub size : ℕ
  pub content_type : Text
  pub sha256 : Text
  pub etag : Text
  pub package_name : Option Text
  pub metadata : List (Text × Text)
  pub created_at : ℕ
  pub updated_at : ℕ

pub data IndexError : Type 0 where
  quota_exceeded internal_error : IndexError

pub record PutInput : Type 0 where
  pub key : Text
  pub size : ℕ
  pub content_type : Text
  pub sha256 : Text
  pub etag : Text
  pub package_name : Option Text
  pub metadata : List (Text × Text)

abbrev pub has_blob_key : Text → BlobRow → Bool
has_blob_key key row = same row.key key

-- SELECT SUM(size)
unfoldable pub blob_bytes : List BlobRow → ℕ
blob_bytes [] = 0
blob_bytes (row ∷ rows) = row.size + blob_bytes rows

abbrev pub size_of : Option BlobRow → ℕ
size_of none = 0
size_of (some row) = row.size

-- The count is checked for a key that is new.
abbrev pub count_full : Quotas → Option BlobRow → List BlobRow → Bool
count_full quotas none rows = not (within_quota quotas.blobs (length rows))
count_full quotas (some existing) rows = false

abbrev pub bytes_full : Quotas → Option BlobRow → (size : ℕ) → List BlobRow → Bool
bytes_full quotas existing size rows =
    not (quotas.blob_bytes == 0)
    && ltb quotas.blob_bytes (blob_bytes rows - size_of existing + size)

abbrev pub check_blob_quota :
    Quotas → Option BlobRow → (size : ℕ) → List BlobRow → Result IndexError (Option BlobRow)
check_blob_quota quotas existing size rows =
    if count_full quotas existing rows
    then err quota_exceeded
    else if bytes_full quotas existing size rows
    then err quota_exceeded
    else ok existing

unfoldable pub assert_blob_quota :
    Quotas → (key : Text) (size : ℕ) → List BlobRow → Result IndexError (Option BlobRow)
unfolding blob_bytes
assert_blob_quota quotas key size rows =
    check_blob_quota quotas (find (has_blob_key key) rows) size rows

unfoldable pub blob_reserve :
    Quotas → (key : Text) (size : ℕ) → Act (List BlobRow) IndexError (Option BlobRow)
unfolding assert_blob_quota
blob_reserve quotas key size rows = (assert_blob_quota quotas key size rows, rows)

abbrev pub overwrite : PutInput → (now : ℕ) → BlobRow → BlobRow
overwrite input now row = record row {
  size = input.size;
  content_type = input.content_type;
  sha256 = input.sha256;
  etag = input.etag;
  package_name = input.package_name;
  metadata = input.metadata;
  updated_at = now;
}

abbrev pub new_blob : PutInput → (now : ℕ) → BlobRow
new_blob input now = record {
  key = input.key;
  size = input.size;
  content_type = input.content_type;
  sha256 = input.sha256;
  etag = input.etag;
  package_name = input.package_name;
  metadata = input.metadata;
  created_at = now;
  updated_at = now;
}

-- INSERT … ON CONFLICT(key) DO UPDATE
unfoldable pub write_blob : PutInput → (now : ℕ) → List BlobRow → List BlobRow
write_blob input now rows =
    if exists (has_blob_key input.key) rows
    then update (has_blob_key input.key) (overwrite input now) rows
    else new_blob input now ∷ rows

-- `one()` throws where there is no row.
abbrev pub one_row : Option BlobRow → Result IndexError BlobRow
one_row none = err internal_error
one_row (some row) = ok row

abbrev pub put_checked :
    Result IndexError (Option BlobRow)
    → PutInput
    → (now : ℕ) → List BlobRow
    → Result IndexError BlobRow × List BlobRow
put_checked (err e) input now rows = (err e, rows)
put_checked (ok existing) input now rows =
    let rows' = write_blob input now rows in (one_row (find (has_blob_key input.key) rows'), rows')

unfoldable pub blob_index_put :
    Quotas → (now : ℕ) → PutInput → Act (List BlobRow) IndexError BlobRow
unfolding assert_blob_quota write_blob
blob_index_put quotas now input rows =
    put_checked (assert_blob_quota quotas input.key input.size rows) input now rows

unfoldable pub blob_index_get : Text → List BlobRow → Option BlobRow
blob_index_get key rows = find (has_blob_key key) rows

abbrev pub delete_found : Option BlobRow → Text → List BlobRow → Option BlobRow × List BlobRow
delete_found none key rows = (none, rows)
delete_found (some existing) key rows = (some existing, delete (has_blob_key key) rows)

unfoldable pub blob_index_delete : Text → List BlobRow → Option BlobRow × List BlobRow
unfolding blob_index_get
blob_index_delete key rows = delete_found (blob_index_get key rows) key rows
