-- ===== src/Files.antt =====
-- nhpc_qa/api/security/paths.py and rbac.py: from a document id to a file that may be served.
pub mod Serving
use nhpc_parliament_rag_syst.Prelude.{
  ℕ, ◌≡◌, Bool, true, false, not, ◌&&◌, Option, none, some, List, [], ◌∷◌, if◌then◌else◌, Text,
  codes, text_eq, any, strip,
}
use nhpc_parliament_rag_syst.OsPath.{AbsPath, below, raw_join}

-- What the file system tells: where a path, given by the components as they are written, leads to when
-- its links, "." and ".." are followed, and which paths are files.
pub record FileSystem : Type 0 where
  pub realpath : List Text → AbsPath
  pub is_file : AbsPath → Bool

pub data FileError : Type 0 where
  file_access_denied file_not_available : FileError

pub data Served : Type 0 where
  refused : FileError → Served
  served : (abs_path : AbsPath) → (rel_path : Text) → Served

abbrev pub jailed : FileSystem → AbsPath → AbsPath → Text → Served
jailed fs root_real target rel_path =
    if below root_real target
    then (if fs.is_file target then served target rel_path else refused file_not_available)
    else refused file_access_denied

-- `_jail`
unfoldable pub jail_file : FileSystem → AbsPath → Text → Served
jail_file fs root rel_path =
    let root_real = fs.realpath root in
    jailed fs root_real (fs.realpath (raw_join root_real rel_path)) rel_path

-- The rows of `diaries` and `annexures` that the two queries read.
pub record ReplyRow : Type 0 where
  pub reply_key : Text
  pub answer_file_path : Option Text

pub record AnnexureRow : Type 0 where
  pub annexure_key : Text
  pub ref_label : Text
  pub file_path : Option Text
  pub file_present : Bool

pub record Files : Type 0 where
  pub replies : List ReplyRow
  pub annexures : List AnnexureRow

unfoldable pub find_reply : Text → List ReplyRow → Option ReplyRow
find_reply doc_key [] = none
find_reply doc_key (r ∷ rs) =
    let rest = find_reply doc_key rs in if text_eq r.reply_key doc_key then some r else rest

unfoldable pub find_annexure : Text → Text → List AnnexureRow → Option AnnexureRow
find_annexure doc_key label [] = none
find_annexure doc_key label (r ∷ rs) =
    let rest = find_annexure doc_key label rs in
    if text_eq r.annexure_key doc_key && text_eq r.ref_label label then some r else rest

-- A path that is missing or empty is not available.
abbrev pub serve_recorded : FileSystem → AbsPath → Option Text → Served
serve_recorded fs root none = refused file_not_available
serve_recorded fs root (some []) = refused file_not_available
serve_recorded fs root (some (c ∷ rel)) = jail_file fs root (c ∷ rel)

abbrev pub serve_reply : FileSystem → AbsPath → Option ReplyRow → Served
serve_reply fs root none = refused file_access_denied
serve_reply fs root (some r) = serve_recorded fs root r.answer_file_path

abbrev pub serve_annexure : FileSystem → AbsPath → Option AnnexureRow → Served
serve_annexure fs root none = refused file_access_denied
serve_annexure fs root (some r) =
    if r.file_present then serve_recorded fs root r.file_path else refused file_not_available

-- An annexure is asked for by its label.
abbrev pub labelled_annexure : FileSystem → AbsPath → Files → Text → Text → Served
labelled_annexure fs root db doc_key [] = refused file_access_denied
labelled_annexure fs root db doc_key (c ∷ label) =
    serve_annexure fs root (find_annexure doc_key (c ∷ label) db.annexures)

unfoldable pub resolve : FileSystem → AbsPath → Files → Text → Text → Text → Served
unfolding find_reply find_annexure jail_file
resolve fs root db doc_key file_kind label =
    if text_eq file_kind (codes "reply")
    then serve_reply fs root (find_reply doc_key db.replies)
    else if text_eq file_kind (codes "annexure")
    then labelled_annexure fs root db doc_key label
    else refused file_access_denied

-- `check` of rbac.py; `none` is AccessDenied. A role that is missing is the empty text.
abbrev pub check_role : List Text → Text → Option Bool
check_role allowed [] = none
check_role allowed (c ∷ role) = if any (λ x. text_eq x (c ∷ role)) allowed then some true else none

unfoldable pub check : (Text → List Text) → Text → Option Text → Option Bool
check roles_for action none = none
check roles_for action (some user_role) = check_role (roles_for action) (strip user_role)
