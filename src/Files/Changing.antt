-- ===== src/Files/Changing.antt =====
-- The handlers of internal/api/files.go that change something: uploads, renames, copies, deletion,
-- trash, modes and owners, share links, and the bulk operations.
use Prim.Native.String.{◌++◌ as join}
use kilasos.Common.{
  String, Bool, true, false, not, ◌||◌, Option, none, some, List, [], ◌∷◌, length, ◌==◌, string_eq,
  bytes_eq, if◌then◌else◌, on_option,
}
use kilasos.Common.Int.{ℤ, pos}
use kilasos.Auth.Crypto.{Bytes}
use kilasos.Audit.{Logger}
use kilasos.Files.Paths.{safe_path, base}
use kilasos.Files.Calls.{
  Call, create_file, remove_file, file_rename, file_copy, file_delete, trash_restore, trash_empty,
  file_chmod, file_chown, create_share_link, revoke_share_link, bulk_delete, bulk_move, World,
  Outcome, refuse, note, block, blocked_path, ok_path, change,
}

-- A part of a multipart form: how many bytes are copied, and the error of the copy.
pub record Part : Type 0 where
  pub file_name : Bytes
  pub copied : ℤ
  pub copy_error : Option String

abbrev pub first_unsafe : List Bytes → Option Bytes
first_unsafe [] = none
first_unsafe (path ∷ paths) = if not (safe_path path) then some path else first_unsafe paths

abbrev pub any_unsafe : List (Bytes × Bytes) → Bool
any_unsafe [] = false
any_unsafe ((src, dst) ∷ ops) = (not (safe_path src) || not (safe_path dst)) || any_unsafe ops

module _ (w : World) where
  abbrev pub also : Call → Outcome → Outcome
  also call o = record o { calls = call ∷ o.calls }

  -- One part with a file name: `os.Create`, then `io.Copy`; `copied` is how the loop goes on.
  abbrev pub store_part : Bytes → Part → Outcome → Logger → Outcome
  store_part path part copied l = also (create_file path) (
      on_option (w.failure (create_file path))
        (on_option part.copy_error copied (λ err.
          also (remove_file path)
            (refuse w 500 (note w "FILE_UPLOAD" (join "write failed: " err) false l))))
        (λ err. refuse w 500 (note w "FILE_UPLOAD" (join "create failed: " err) false l)))

  abbrev pub size_text : Bytes → ℤ → String
  size_text path written = join (ok_path w path) (join " (" (join (w.number written) " bytes)"))

  -- The loop over the parts; `written` is the size of the last one that was copied.
  unfoldable pub upload_parts : Bytes → ℤ → List Part → Logger → Outcome
  upload_parts path written [] l =
      refuse w 200 (note w "FILE_UPLOAD" (size_text path written) true l)
  upload_parts path written (part ∷ parts) l =
      let skipped = upload_parts path written parts l in
      let copied = upload_parts path part.copied parts l in
      if part.file_name == [] then skipped else store_part path part copied l

  -- `form` is what `r.MultipartReader()` gives: none, or the parts up to the end or to an error.
  unfoldable pub file_upload_handler : Bytes → Option (List Part) → Logger → Outcome
  file_upload_handler path form l =
      if not (w.method == "POST")
      then refuse w 405 l
      else if path == []
      then refuse w 400 l
      else if not (safe_path path)
      then block w "FILE_UPLOAD" (blocked_path w path) l
      else on_option form (refuse w 400 l) (λ parts. upload_parts path (pos 0) parts l)

  abbrev arrow : Bytes → Bytes → String
  arrow from to = join (ok_path w from) (join " -> " (w.text to))

  unfoldable pub file_rename_handler : Option (Bytes × Bytes) → Logger → Outcome
  file_rename_handler body l =
      if not (w.method == "POST")
      then refuse w 405 l
      else on_option body (refuse w 400 l) (λ req.
        if not (safe_path req.0) || not (safe_path req.1)
        then block w "FILE_RENAME" "path traversal blocked" l
        else change w (file_rename req.0 req.1) "FILE_RENAME" (arrow req.0 req.1) l)

  unfoldable pub file_copy_handler : Option (Bytes × Bytes) → Logger → Outcome
  file_copy_handler body l =
      if not (w.method == "POST")
      then refuse w 405 l
      else on_option body (refuse w 400 l) (λ req.
        if not (safe_path req.0) || not (safe_path req.1)
        then block w "FILE_COPY" "path traversal blocked" l
        else change w (file_copy req.0 req.1) "FILE_COPY" (arrow req.0 req.1) l)

  unfoldable pub file_delete_handler : Option Bytes → Logger → Outcome
  file_delete_handler body l =
      if not (w.method == "POST")
      then refuse w 405 l
      else on_option body (refuse w 400 l) (λ path.
        if not (safe_path path)
        then block w "FILE_DELETE" (blocked_path w path) l
        else change w (file_delete path) "FILE_DELETE" (ok_path w path) l)

  unfoldable pub trash_restore_handler : Option Bytes → Logger → Outcome
  trash_restore_handler body l =
      if not (w.method == "POST")
      then refuse w 405 l
      else on_option body (refuse w 400 l) (λ path.
        if not (safe_path path)
        then block w "TRASH_RESTORE" (blocked_path w path) l
        else change w (trash_restore path) "TRASH_RESTORE" (ok_path w path) l)

  unfoldable pub trash_empty_handler : Logger → Outcome
  trash_empty_handler l =
      if not (w.method == "POST") then refuse w 405 l else change w trash_empty "TRASH_EMPTY" "ok" l

  unfoldable pub file_chmod_handler : Option (Bytes × String) → Logger → Outcome
  file_chmod_handler body l =
      if not (w.method == "POST")
      then refuse w 405 l
      else on_option body (refuse w 400 l) (λ req.
        if not (safe_path req.0)
        then block w "FILE_CHMOD" (blocked_path w req.0) l
        else change w (file_chmod req.0 req.1) "FILE_CHMOD"
            (join (ok_path w req.0) (join " " req.1)) l)

  unfoldable pub file_chown_handler : Option (Bytes × ℤ × ℤ) → Logger → Outcome
  file_chown_handler body l =
      if not (w.method == "POST")
      then refuse w 405 l
      else on_option body (refuse w 400 l) (λ req.
        if not (safe_path req.0)
        then block w "FILE_CHOWN" (blocked_path w req.0) l
        else change w (file_chown req.0 req.1 req.2) "FILE_CHOWN"
            (join (ok_path w req.0)
              (join " uid=" (join (w.number req.1) (join " gid=" (w.number req.2)))))
            l)

  -- The body has the path, the seconds until the link expires, and how often it may be used.
  unfoldable pub create_share_link_handler : Option (Bytes × ℤ × ℤ) → Logger → Outcome
  create_share_link_handler body l =
      if not (w.method == "POST")
      then refuse w 405 l
      else on_option body (refuse w 400 l) (λ req.
        if not (safe_path req.0)
        then block w "CREATE_SHARE" (blocked_path w req.0) l
        else change w (create_share_link req.0 req.1 req.2) "CREATE_SHARE" (ok_path w req.0) l)

  unfoldable pub revoke_share_handler : Bytes → Logger → Outcome
  revoke_share_handler url_path l =
      let id = base url_path in
      if not (w.method == "DELETE")
      then refuse w 405 l
      else if id == []
      then refuse w 400 l
      else change w (revoke_share_link id) "REVOKE_SHARE" (ok_path w id) l

  unfoldable pub bulk_delete_handler : Option (List Bytes) → Logger → Outcome
  bulk_delete_handler body l =
      if not (w.method == "POST")
      then refuse w 405 l
      else on_option body (refuse w 400 l) (λ paths.
        on_option (first_unsafe paths)
          (change w (bulk_delete paths) "BULK_DELETE"
            (join "ok: " (join (w.number (pos (length paths))) " files")) l)
          (λ path. block w "BULK_DELETE" (blocked_path w path) l))

  unfoldable pub bulk_move_handler : Option (List (Bytes × Bytes)) → Logger → Outcome
  bulk_move_handler body l =
      if not (w.method == "POST")
      then refuse w 405 l
      else on_option body (refuse w 400 l) (λ ops.
        if any_unsafe ops
        then block w "BULK_MOVE" "path traversal blocked" l
        else change w (bulk_move ops) "BULK_MOVE"
            (join "ok: " (join (w.number (pos (length ops))) " ops")) l)
