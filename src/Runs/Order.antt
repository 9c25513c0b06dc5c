-- ===== src/Runs/Order.antt =====
-- The order of runs: ORDER BY created_at DESC, id DESC.
use kody_celld.Prelude.{ℕ, Bool, true, false, ◌||◌, ◌&&◌, List, [], ◌∷◌, Text, ◌==◌, ltb}
use kody_celld.Table.Sort.{sort_by}
use kody_celld.Runs.Defs.{RunRow}

-- `<` on TEXT columns.
unfoldable pub text_before : Text → Text → Bool
text_before [] [] = false
text_before [] (y ∷ ys) = true
text_before (x ∷ xs) [] = false
text_before (x ∷ xs) (y ∷ ys) = let rest = text_before xs ys in ltb x y || (x == y && rest)

-- `created_at < ? OR (created_at = ? AND id < ?)`
unfoldable pub is_earlier : RunRow → (created_at : ℕ) (id : Text) → Bool
unfolding text_before
is_earlier row created_at id =
    ltb row.created_at created_at || (row.created_at == created_at && text_before row.id id)

abbrev pub newest_first : List RunRow → List RunRow
newest_first rows = sort_by (λ row r. is_earlier row r.created_at r.id) rows
