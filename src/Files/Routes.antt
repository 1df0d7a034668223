-- ===== src/Files/Routes.antt =====
-- The routes of internal/api/router.go that lead to the handlers of internal/api/files.go: a
-- request is one of them, with its query or its decoded body.
pub mod Safety
pub mod Log
use kilasos.Common.{String, Option, List, ◌⊎◌, inl, inr}
use kilasos.Common.Int.{ℤ}
use kilasos.Auth.Crypto.{Bytes}
use kilasos.Audit.{Logger}
use kilasos.Files.Calls.{World, Outcome}
use kilasos.Files.Reading.{
  WalkEntry, file_list_handler, file_tree_handler, file_read_handler, file_preview_handler,
  file_download_handler, folder_zip_handler, trash_list_handler, list_shares_handler,
  get_share_handler,
}
use kilasos.Files.Changing.{
  Part, file_upload_handler, file_rename_handler, file_copy_handler, file_delete_handler,
  trash_restore_handler, trash_empty_handler, file_chmod_handler, file_chown_handler,
  create_share_link_handler, revoke_share_handler, bulk_delete_handler, bulk_move_handler,
}

pub data Reading : Type 0 where
  list tree read preview download : Bytes → Reading
  zip : Option Bytes → List WalkEntry → Reading
  trash shares : Reading
  share : Bytes → Reading

pub data Changing : Type 0 where
  upload : Bytes → Option (List Part) → Changing
  rename copy : Option (Bytes × Bytes) → Changing
  delete restore : Option Bytes → Changing
  empty : Changing
  chmod : Option (Bytes × String) → Changing
  chown create_share : Option (Bytes × ℤ × ℤ) → Changing
  revoke_share : Bytes → Changing
  delete_all : Option (List Bytes) → Changing
  move_all : Option (List (Bytes × Bytes)) → Changing

module _ (w : World) where
  unfoldable pub serve_reading : Reading → Logger → Outcome
  serve_reading (list path) = file_list_handler w path
  serve_reading (tree path) = file_tree_handler w path
  serve_reading (read path) = file_read_handler w path
  serve_reading (preview path) = file_preview_handler w path
  serve_reading (download path) = file_download_handler w path
  serve_reading (zip body entries) = folder_zip_handler w body entries
  serve_reading trash = trash_list_handler w
  serve_reading shares = list_shares_handler w
  serve_reading (share url_path) = get_share_handler w url_path

  unfoldable pub serve_changing : Changing → Logger → Outcome
  serve_changing (upload path form) = file_upload_handler w path form
  serve_changing (rename body) = file_rename_handler w body
  serve_changing (copy body) = file_copy_handler w body
  serve_changing (delete body) = file_delete_handler w body
  serve_changing (restore body) = trash_restore_handler w body
  serve_changing empty = trash_empty_handler w
  serve_changing (chmod body) = file_chmod_handler w body
  serve_changing (chown body) = file_chown_handler w body
  serve_changing (create_share body) = create_share_link_handler w body
  serve_changing (revoke_share url_path) = revoke_share_handler w url_path
  serve_changing (delete_all body) = bulk_delete_handler w body
  serve_changing (move_all body) = bulk_move_handler w body

  unfoldable pub serve : Reading ⊎ Changing → Logger → Outcome
  serve (inl r) = serve_reading r
  serve (inr r) = serve_changing r
