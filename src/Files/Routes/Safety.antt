-- ===== src/Files/Routes/Safety.antt =====
-- Which paths the handlers of internal/api/files.go hand on.
use kilasos.Common.{
  ◌≡◌, true, false, none, some, List, [], ◌∷◌, All, All-imp, if_case, ◌==◌, bytes_eq, inl, inr,
  arith, ◌⊎◌,
}
use kilasos.Common.Int.{ℤ, pos}
use kilasos.Auth.Crypto.{Bytes}
use kilasos.Audit.{Logger}
use kilasos.Files.Paths.{safe_path}
use kilasos.Files.Paths.Containment.{IsUnderMnt, safe_path-IsUnderMnt}
use kilasos.Files.Calls.{both_ends, paths_of, World, Outcome}
use kilasos.Files.Reading.{
  file_list_handler, file_tree_handler, file_read_handler, file_preview_handler,
  file_download_handler, folder_zip_handler, trash_list_handler, list_shares_handler,
  get_share_handler,
}
use kilasos.Files.Changing.{
  Part, first_unsafe, any_unsafe, store_part, upload_parts, file_upload_handler,
  file_rename_handler, file_copy_handler, file_delete_handler, trash_restore_handler,
  trash_empty_handler, file_chmod_handler, file_chown_handler, create_share_link_handler,
  revoke_share_handler, bulk_delete_handler, bulk_move_handler,
}
use kilasos.Files.Routes.{
  Reading, list, tree, read, preview, download, zip, trash, shares, share, Changing, upload, rename,
  copy, delete, restore, empty, chmod, chown, create_share, revoke_share, delete_all, move_all,
  serve_reading, serve_changing, serve,
}

abbrev AreSafe : List Bytes → Type 0
AreSafe = All (λ path. safe_path path ≡ true)

-- Every path that is handed on was accepted by safePath.
abbrev Checked : Outcome → Type 0
Checked o = All (λ call. AreSafe (paths_of call)) o.calls

first_unsafe-AreSafe : (paths : List Bytes) → first_unsafe paths ≡ none → AreSafe paths
first_unsafe-AreSafe [] h = tt
first_unsafe-AreSafe (path ∷ paths) h = ground (arith, first_unsafe-AreSafe paths)

any_unsafe-AreSafe : (ops : List (Bytes × Bytes)) → any_unsafe ops ≡ false → AreSafe (both_ends ops)
any_unsafe-AreSafe [] h = tt
any_unsafe-AreSafe ((src, dst) ∷ ops) h = ground (arith, any_unsafe-AreSafe ops)

confined : (o : Outcome) → Checked o → All (λ call. All IsUnderMnt (paths_of call)) o.calls
confined o =
    All-imp (λ call. AreSafe (paths_of call)) (λ call. All IsUnderMnt (paths_of call)) o.calls
      (λ call.
        All-imp (λ path. safe_path path ≡ true) IsUnderMnt (paths_of call) safe_path-IsUnderMnt)

module _ (w : World) where
  store_part-Checked :
      (path : Bytes) (part : Part) (copied : Outcome) (l : Logger)
      → safe_path path ≡ true
      → Checked copied
      → Checked (store_part w path part copied l)
  store_part-Checked path part copied l safe h = ground arith

  upload_parts-Checked :
      (path : Bytes) (written : ℤ) (parts : List Part) (l : Logger)
      → safe_path path ≡ true
      → Checked (upload_parts w path written parts l)
  unfolding upload_parts
  upload_parts-Checked path written [] l safe = tt
  upload_parts-Checked path written (part ∷ parts) l safe =
      if_case Checked (part.file_name == []) (upload_parts w path written parts l)
        (store_part w path part (upload_parts w path part.copied parts l) l)
        (λ _. upload_parts-Checked path written parts l safe)
        (λ _.
          store_part-Checked path part _ l safe
            (upload_parts-Checked path part.copied parts l safe))

  serve_reading-Checked : (r : Reading) (l : Logger) → Checked (serve_reading w r l)
  unfolding serve_reading file_list_handler file_tree_handler file_read_handler file_preview_handler
      file_download_handler folder_zip_handler trash_list_handler list_shares_handler
      get_share_handler
  serve_reading-Checked (list path) l = ground arith
  serve_reading-Checked (tree path) l = ground arith
  serve_reading-Checked (read path) l = ground arith
  serve_reading-Checked (preview path) l = ground arith
  serve_reading-Checked (download path) l = ground arith
  serve_reading-Checked (zip body entries) l = ground arith
  serve_reading-Checked trash l = ground arith
  serve_reading-Checked shares l = ground arith
  serve_reading-Checked (share url_path) l = ground arith

  serve_changing-Checked : (r : Changing) (l : Logger) → Checked (serve_changing w r l)
  unfolding serve_changing file_upload_handler file_rename_handler file_copy_handler
      file_delete_handler trash_restore_handler trash_empty_handler file_chmod_handler
      file_chown_handler create_share_link_handler revoke_share_handler bulk_delete_handler
      bulk_move_handler
  serve_changing-Checked (upload path none) l = ground arith
  serve_changing-Checked (upload path (some parts)) l =
      ground (arith, upload_parts-Checked path (pos 0) parts l)
  serve_changing-Checked (rename body) l = ground arith
  serve_changing-Checked (copy body) l = ground arith
  serve_changing-Checked (delete body) l = ground arith
  serve_changing-Checked (restore body) l = ground arith
  serve_changing-Checked empty l = ground arith
  serve_changing-Checked (chmod body) l = ground arith
  serve_changing-Checked (chown body) l = ground arith
  serve_changing-Checked (create_share body) l = ground arith
  serve_changing-Checked (revoke_share url_path) l = ground arith
  serve_changing-Checked (delete_all none) l = ground arith
  serve_changing-Checked (delete_all (some paths)) l = ground (arith, first_unsafe-AreSafe paths)
  serve_changing-Checked (move_all none) l = ground arith
  serve_changing-Checked (move_all (some ops)) l = ground (arith, any_unsafe-AreSafe ops)

-- Every path that a request for a file makes the daemon hand to the provider or to the operating
-- system, whatever the request and the answers, starts at the root, never goes up, and names a
-- place under /mnt: its names begin with "mnt", and cleaned it is "/mnt" with other names below.
pub served-IsUnderMnt :
    (w : World) (r : Reading ⊎ Changing) (l : Logger)
    → All (λ call. All IsUnderMnt (paths_of call)) (serve w r l).calls
unfolding serve
served-IsUnderMnt w (inl r) l = confined (serve_reading w r l) (serve_reading-Checked w r l)
served-IsUnderMnt w (inr r) l = confined (serve_changing w r l) (serve_changing-Checked w r l)
