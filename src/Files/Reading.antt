-- ===== src/Files/Reading.antt =====
-- The handlers of internal/api/files.go that read: lists, contents, downloads and archives.
use Prim.Native.String.{◌++◌ as join}
use kilasos.Common.{
  Bool, true, not, ◌||◌, Option, List, [], ◌∷◌, ◌++◌, ◌==◌, string_eq, bytes_eq, if◌then◌else◌,
  on_option,
}
use kilasos.Auth.Crypto.{Bytes}
use kilasos.Audit.{Logger}
use kilasos.Files.Paths.{mnt, safe_path, base}
use kilasos.Files.Calls.{
  file_list, file_tree, file_read, file_preview, open_file, zip_tree, trash_list, list_share_links,
  get_share_link, World, Outcome, refuse, note, block, blocked_path, ok_path, look,
}

abbrev pub or_mnt : Bytes → Bytes
or_mnt path = if path == [] then mnt else path

-- What `filepath.WalkDir` hands to its callback: the name relative to the parent of the directory,
-- and what is found out about the entry.
pub record WalkEntry : Type 0 where
  pub rel : Bytes
  pub unreadable : Bool
  pub is_symlink : Bool
  pub is_dir : Bool
  pub no_info : Bool
  pub info_symlink : Bool
  pub unopenable : Bool

-- The callback: what it adds to the archive.
unfoldable pub zip_entry : WalkEntry → List Bytes
zip_entry e =
    if e.unreadable
    then []
    else if e.is_symlink
    then []
    else if e.is_dir
    then (e.rel ++ (b'/' ∷ [])) ∷ []
    else if e.no_info || e.info_symlink
    then []
    else if e.unopenable
    then []
    else e.rel ∷ []

unfoldable pub zip_entries : List WalkEntry → List Bytes
zip_entries [] = []
zip_entries (e ∷ entries) = zip_entry e ++ zip_entries entries

module _ (w : World) where
  unfoldable pub file_list_handler : Bytes → Logger → Outcome
  file_list_handler asked l =
      let path = or_mnt asked in
      if not (w.method == "GET")
      then refuse w 405 l
      else if not (safe_path path)
      then block w "FILE_LIST" (blocked_path w path) l
      else look w (file_list path) "FILE_LIST" (ok_path w path) l

  unfoldable pub file_tree_handler : Bytes → Logger → Outcome
  file_tree_handler asked l =
      let path = or_mnt asked in
      if not (w.method == "GET")
      then refuse w 405 l
      else if not (safe_path path)
      then block w "FILE_TREE" (blocked_path w path) l
      else look w (file_tree path) "FILE_TREE" (ok_path w path) l

  unfoldable pub file_read_handler : Bytes → Logger → Outcome
  file_read_handler path l =
      if not (w.method == "GET")
      then refuse w 405 l
      else if not (safe_path path)
      then block w "FILE_READ" (blocked_path w path) l
      else look w (file_read path) "FILE_READ" (ok_path w path) l

  unfoldable pub file_preview_handler : Bytes → Logger → Outcome
  file_preview_handler path l =
      if not (w.method == "GET")
      then refuse w 405 l
      else if not (safe_path path)
      then block w "FILE_PREVIEW" (blocked_path w path) l
      else look w (file_preview path) "FILE_PREVIEW" (ok_path w path) l

  unfoldable pub file_download_handler : Bytes → Logger → Outcome
  file_download_handler path l =
      if not (w.method == "GET")
      then refuse w 405 l
      else if not (safe_path path)
      then block w "FILE_DOWNLOAD" (blocked_path w path) l
      else on_option (w.failure (open_file path))
          (record {
            log = note w "FILE_DOWNLOAD" (ok_path w path) true l;
            calls = open_file path ∷ [];
            status = 200;
            archive = [];
          })
          (λ err. record { log = l; calls = open_file path ∷ []; status = 404; archive = [] })

  abbrev resolved_block : Bytes → Logger → Outcome
  resolved_block path l =
      block w "FOLDER_ZIP" (join "path traversal blocked (resolved): " (w.text path)) l

  -- `entries` is what the walk over the resolved directory finds.
  unfoldable pub folder_zip_handler : Option Bytes → List WalkEntry → Logger → Outcome
  folder_zip_handler body entries l =
      if not (w.method == "POST")
      then refuse w 405 l
      else on_option body (refuse w 400 l) (λ path.
        if not (safe_path path)
        then block w "FOLDER_ZIP" (blocked_path w path) l
        else on_option (w.eval_symlinks path) (resolved_block path l) (λ resolved.
          if not (safe_path resolved) then resolved_block path l else record {
            log = note w "FOLDER_ZIP" (ok_path w path) true l;
            calls = zip_tree resolved ∷ [];
            status = 200;
            archive = zip_entries entries;
          }))

  unfoldable pub trash_list_handler : Logger → Outcome
  trash_list_handler l =
      if not (w.method == "GET") then refuse w 405 l else look w trash_list "TRASH_LIST" "ok" l

  unfoldable pub list_shares_handler : Logger → Outcome
  list_shares_handler l =
      if not (w.method == "GET")
      then refuse w 405 l
      else look w list_share_links "LIST_SHARES" "ok" l

  -- `url_path` is the path of the request; its last part is the ID.
  unfoldable pub get_share_handler : Bytes → Logger → Outcome
  get_share_handler url_path l =
      let id = base url_path in
      if not (w.method == "GET")
      then refuse w 405 l
      else on_option (w.failure (get_share_link id))
          (record {
            log = note w "GET_SHARE" (ok_path w id) true l;
            calls = get_share_link id ∷ [];
            status = 200;
            archive = [];
          })
          (λ err. record { log = l; calls = get_share_link id ∷ []; status = 404; archive = [] })
