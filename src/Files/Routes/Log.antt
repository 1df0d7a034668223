-- ===== src/Files/Routes/Log.antt =====
-- What the handlers of internal/api/files.go leave in the audit log.
use Prim.Native.String.{◌++◌ as join}
use kilasos.Common.{
  ◌≡◌, refl, Bool, not, String, Option, List, [], ◌∷◌, ◌==◌, nat_eq, bytes_eq, if_case, option_case,
  if◌then◌else◌, on_option, ◌⊎◌, inl, inr,
}
use kilasos.Common.Int.{ℤ}
use kilasos.Auth.Crypto.{Bytes}
use kilasos.Audit.{Logger}
use kilasos.Files.Paths.{safe_path, base}
use kilasos.Files.Calls.{
  Call, create_file, remove_file, World, Outcome, refuse, note, block, change,
}
use kilasos.Files.Changing.{
  Part, also, store_part, size_text, first_unsafe, upload_parts, file_upload_handler,
  file_rename_handler, file_copy_handler, file_delete_handler, trash_restore_handler,
  trash_empty_handler, file_chmod_handler, file_chown_handler, create_share_link_handler,
  revoke_share_handler, bulk_delete_handler, bulk_move_handler,
}
use kilasos.Files.Routes.{
  Changing, upload, rename, copy, delete, restore, empty, chmod, chown, create_share, revoke_share,
  delete_all, move_all, serve_changing,
}

-- How a request for a change ends, from the log `before` it. Either it is turned away: nothing is
-- done, the log is as before, and the answer is 400 or 405. Or the log gets one entry, with the
-- address of the request and with whether the answer was 200; where that is not so, it was 403 and
-- nothing was done, or 500.
pub data Accounted (w : World) (before : Logger) : Outcome → Type 0 where
  turned_away :
      (o : Outcome)
      → o.calls ≡ []
      → o.log ≡ before
      → (o.status ≡ 400) ⊎ (o.status ≡ 405)
      → Accounted w before o
  logged :
      (o : Outcome) (action detail : String)
      → o.log ≡ note w action detail (o.status == 200) before
      → (o.status ≡ 200) ⊎ ((o.status ≡ 403) × (o.calls ≡ [])) ⊎ (o.status ≡ 500)
      → Accounted w before o

-- A run of the loop over the parts of an upload.
data Sent (w : World) (before : Logger) : Outcome → Type 0 where
  sent :
      (o : Outcome) (detail : String)
      → o.log ≡ note w "FILE_UPLOAD" detail (o.status == 200) before
      → (o.status ≡ 200) ⊎ (o.status ≡ 500)
      → Sent w before o

Sent-Accounted : {w : World} {l : Logger} {o : Outcome} → Sent w l o → Accounted w l o
Sent-Accounted (sent o detail h (inl good)) = logged o "FILE_UPLOAD" detail h (inl good)
Sent-Accounted (sent o detail h (inr bad)) = logged o "FILE_UPLOAD" detail h (inr (inr bad))

also-Sent :
    {w : World} {l : Logger} (call : Call) {o : Outcome} → Sent w l o → Sent w l (also w call o)
also-Sent call (sent o detail h status) = sent _ detail h status

module _ (w : World) (l : Logger) where
  block-Accounted : (action detail : String) → Accounted w l (block w action detail l)
  block-Accounted action detail = logged _ action detail refl (inr (inl (refl, refl)))

  change-Accounted :
      (call : Call) (action detail : String) → Accounted w l (change w call action detail l)
  change-Accounted call action detail =
      option_case (Accounted w l) (w.failure call) _ _ (λ _. logged _ action detail refl (inl refl))
        (λ err _. logged _ action (join "fail: " err) refl (inr (inr refl)))

  -- The shape of most handlers: the method, the body, the check of a path, the call.
  guarded :
      (b : Bool) (action detail action' detail' : String) (call : Call)
      → Accounted w l (if b then block w action detail l else change w call action' detail' l)
  guarded b action detail action' detail' call =
      if_case (Accounted w l) b _ _ (λ _. block-Accounted action detail)
        (λ _. change-Accounted call action' detail')

  with_method :
      (b : Bool) (o : Outcome) → Accounted w l o → Accounted w l (if b then refuse w 405 l else o)
  with_method b o h =
      if_case (Accounted w l) b _ _ (λ _. turned_away _ refl refl (inr refl)) (λ _. h)

  with_body :
      {A : Type 0} (body : Option A) (f : A → Outcome)
      → ((x : A) → Accounted w l (f x))
      → Accounted w l (on_option body (refuse w 400 l) f)
  with_body body f h =
      option_case (Accounted w l) body _ f (λ _. turned_away _ refl refl (inl refl)) (λ x _. h x)

  with_both :
      {A : Type 0} (b : Bool) (body : Option A) (f : A → Outcome)
      → ((x : A) → Accounted w l (f x))
      → Accounted w l (if b then refuse w 405 l else on_option body (refuse w 400 l) f)
  with_both b body f h = with_method b _ (with_body body f h)

  store_part-Sent :
      (path : Bytes) (part : Part) (copied : Outcome)
      → Sent w l copied
      → Sent w l (store_part w path part copied l)
  store_part-Sent path part copied h = also-Sent (create_file path) (
      option_case (Sent w l) (w.failure (create_file path)) _ _
        (λ _.
          option_case (Sent w l) part.copy_error copied _ (λ _. h)
            (λ err _.
              also-Sent (remove_file path) (sent _ (join "write failed: " err) refl (inr refl))))
        (λ err _. sent _ (join "create failed: " err) refl (inr refl)))

  upload_parts-Sent :
      (path : Bytes) (written : ℤ) (parts : List Part)
      → Sent w l (upload_parts w path written parts l)
  unfolding upload_parts
  upload_parts-Sent path written [] = sent _ (size_text w path written) refl (inl refl)
  upload_parts-Sent path written (part ∷ parts) =
      if_case (Sent w l) (part.file_name == []) _ _ (λ _. upload_parts-Sent path written parts)
        (λ _. store_part-Sent path part _ (upload_parts-Sent path part.copied parts))

-- A request that would change something is turned away with 400 or 405, where nothing is done and
-- the log stays as it is; or the log gets one entry, with the address of the request, that is
-- marked as done exactly where the answer is 200; and otherwise the answer is 403 and nothing was
-- done, or it is 500.
pub changes-Accounted :
    (w : World) (r : Changing) (l : Logger) → Accounted w l (serve_changing w r l)
unfolding serve_changing file_upload_handler file_rename_handler file_copy_handler
    file_delete_handler trash_restore_handler trash_empty_handler file_chmod_handler
    file_chown_handler create_share_link_handler revoke_share_handler bulk_delete_handler
    bulk_move_handler
changes-Accounted w (upload path form) l = with_method w l _ _ (
    if_case (Accounted w l) (path == []) _ _ (λ _. turned_away _ refl refl (inl refl))
      (λ _.
        if_case (Accounted w l) (not (safe_path path)) _ _ (λ _. block-Accounted w l _ _)
          (λ _.
            with_body w l form _ (λ parts. Sent-Accounted (upload_parts-Sent w l path _ parts)))))
changes-Accounted w (rename body) l = with_both w l _ body _ (λ req. guarded w l _ _ _ _ _ _)
changes-Accounted w (copy body) l = with_both w l _ body _ (λ req. guarded w l _ _ _ _ _ _)
changes-Accounted w (delete body) l = with_both w l _ body _ (λ req. guarded w l _ _ _ _ _ _)
changes-Accounted w (restore body) l = with_both w l _ body _ (λ req. guarded w l _ _ _ _ _ _)
changes-Accounted w empty l = with_method w l _ _ (change-Accounted w l _ _ _)
changes-Accounted w (chmod body) l = with_both w l _ body _ (λ req. guarded w l _ _ _ _ _ _)
changes-Accounted w (chown body) l = with_both w l _ body _ (λ req. guarded w l _ _ _ _ _ _)
changes-Accounted w (create_share body) l = with_both w l _ body _ (λ req. guarded w l _ _ _ _ _ _)
changes-Accounted w (revoke_share url_path) l = with_method w l _ _ (
    if_case (Accounted w l) (base url_path == []) _ _ (λ _. turned_away _ refl refl (inl refl))
      (λ _. change-Accounted w l _ _ _))
changes-Accounted w (delete_all body) l = with_both w l _ body _ (λ paths.
    option_case (Accounted w l) (first_unsafe paths) _ _ (λ _. change-Accounted w l _ _ _)
      (λ path _. block-Accounted w l _ _))
changes-Accounted w (move_all body) l = with_both w l _ body _ (λ ops. guarded w l _ _ _ _ _ _)
