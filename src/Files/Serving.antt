-- ===== src/Files/Serving.antt =====
-- What nhpc_qa/api/security/paths.py serves, and whom rbac.py lets through.
use nhpc_parliament_rag_syst.Prelude.{
  ◌≡◌, refl, ◌⊎◌, ◌↔◌, ◌≢◌, true, some, List, [], ◌∷◌, Text, text_eq, any, strip, if_some,
  none-some,
}
use nhpc_parliament_rag_syst.OsPath.{AbsPath, below, raw_join}
use nhpc_parliament_rag_syst.Files.{
  FileSystem, Files, ReplyRow, AnnexureRow, find_reply, find_annexure, check, check_role,
}

-- What a file served for a recorded path is: it is where that path leads from the real root, it stands
-- inside the real root, and it is a file.
abbrev pub IsInside : FileSystem → AbsPath → Text → AbsPath → Type 0
IsInside fs root recorded target =
    (target ≡ fs.realpath (raw_join (fs.realpath root) recorded))
    × (below (fs.realpath root) target ≡ true)
    × (fs.is_file target ≡ true)

-- The path comes from a row of the reply table, or from an annexure that was found on disk.
abbrev pub IsRecorded : Files → Text → Text → Text → Type 0
IsRecorded db doc_key label r =
    ((row : ReplyRow) × (find_reply doc_key db.replies ≡ some row)
      × (row.answer_file_path ≡ some r))
    ⊎ ((row : AnnexureRow) × (find_annexure doc_key label db.annexures ≡ some row)
        × (row.file_present ≡ true)
        × (row.file_path ≡ some r))

check_role-exact :
    (allowed : List Text) (role : Text)
    → (check_role allowed role ≡ some true)
      ↔ ((role ≢ []) × (any (λ x. text_eq x role) allowed ≡ true))
check_role-exact allowed [] = (λ h. absurd (none-some h), λ (some_role, e). absurd (some_role refl))
check_role-exact allowed (c ∷ role) = (
  λ h. (λ e. absurd (cc), (if_some (any (λ x. text_eq x (c ∷ role)) allowed) true h).0),
  λ (some_role, e). rw e refl,
)

-- The role check fails closed: a role is let through exactly when, without the spaces around it, it is
-- not empty and is on the list for that action.
check_exact :
    (roles_for : Text → List Text) (action role : Text)
    → (check roles_for action (some role) ≡ some true)
      ↔ ((strip role ≢ []) × (any (λ x. text_eq x (strip role)) (roles_for action) ≡ true))
unfolding check
check_exact roles_for action role = check_role-exact (roles_for action) (strip role)
