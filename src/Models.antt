-- ===== src/Models.antt =====
-- src/models.rs: the rows of the two tables. The `i64` columns hold ids, sizes, counts and seconds
-- since the epoch, which the program only ever writes as numbers of at least 0.
use comic_stream.Common.{ℕ, Option}
use comic_stream.Text.{Text}

pub record Folder : Type 0 where
  pub id : ℕ
  pub parent_id : Option ℕ
  pub path : Text
  pub name : Text
  pub sort_key : Text
  pub cover_path : Option Text
  pub mtime : ℕ
  pub seen_at : ℕ
  pub cover_version : Option Text
  pub description : Option Text
  pub slug : Text

pub record Book : Type 0 where
  pub id : ℕ
  pub folder_id : ℕ
  pub hash : Text
  pub path : Text
  pub name : Text
  pub sort_key : Text
  pub format : Text
  pub file_size : ℕ
  pub mtime : ℕ
  pub page_count : ℕ
  pub added_at : ℕ
  pub seen_at : ℕ
