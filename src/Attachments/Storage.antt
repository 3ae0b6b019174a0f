-- ===== src/Attachments/Storage.antt =====
-- attachments.ts, `storeAttachments`: the checks of an attachment, its file, and the removal of the files
-- when a later one fails. Of node:path and node:buffer, what the code calls is a parameter, and so is what
-- the disk does at each path.
pub mod Rollback
use code_harbor.Attachments.Names.{sanitize_attachment_file_name}
use code_harbor.Common.{
  Bool, List, Option, String, [], false, if◌then◌else◌, includes, inl, inr, is_some, length, ltb,
  nat_eq, none, not, or_else, some, string_eq, true, truthy, ℕ, ◌++◌, ◌==◌, ◌||◌, ◌∷◌, ◌⊎◌,
}
use code_harbor.Common.JsMap.{JsMap, delete, set}
use code_harbor.Common.Text.{concat, drop_chars, strip_prefix, text_behind, trim, utf16_length}
use code_harbor.RelayProxy.{is_encoded}

abbrev pub max_attachments_per_turn : ℕ
max_attachments_per_turn = 8

abbrev pub max_attachment_bytes : ℕ
max_attachment_bytes = 15_728_640

-- `Math.ceil(maxAttachmentBytes * 4 / 3) + 512`
abbrev pub max_attachment_base64_chars : ℕ
max_attachment_base64_chars = 20_972_032

abbrev pub image_extensions : List String
image_extensions = ".png" ∷ ".jpg" ∷ ".jpeg" ∷ ".webp" ∷ ".gif" ∷ ".bmp" ∷ []

abbrev pub file_extensions : List String
file_extensions =
    ".txt" ∷ ".md" ∷ ".markdown" ∷ ".json" ∷ ".yaml" ∷ ".yml" ∷ ".csv" ∷ ".log" ∷ ".pdf" ∷ ".doc"
    ∷ ".docx" ∷ ".xls" ∷ ".xlsx" ∷ ".ppt" ∷ ".pptx" ∷ ".zip" ∷ ".js" ∷ ".jsx" ∷ ".ts" ∷ ".tsx"
    ∷ ".py" ∷ ".java" ∷ ".kt" ∷ ".swift" ∷ ".go" ∷ ".rs" ∷ ".c" ∷ ".h" ∷ ".cpp" ∷ ".hpp" ∷ ".cs"
    ∷ ".php" ∷ ".rb" ∷ ".sh" ∷ ".bash" ∷ ".zsh" ∷ ".ps1" ∷ ".html" ∷ ".css" ∷ ".scss" ∷ ".xml"
    ∷ ".toml" ∷ ".ini" ∷ ".conf" ∷ ".env" ∷ ".gradle" ∷ ".sql" ∷ []

pub record UploadedAttachment : Type 0 where
  pub name : String
  pub mime_type : Option String
  pub size : Option ℕ
  pub data_base64 : String

pub data AttachmentKind : Type 0 where
  image file : AttachmentKind

pub record StoredAttachment : Type 0 where
  pub stored_id : String
  pub original_name : String
  pub stored_mime_type : String
  pub stored_size : ℕ
  pub kind : AttachmentKind
  pub relative_path : String
  pub absolute_path : String

pub data StoreError : Type 0 where
  too_many_attachments path_escape invalid_size attachment_too_large : StoreError
  unsupported_type invalid_attachment write_failed : StoreError

-- `/[\r\n\t ]/`
abbrev pub is_blank : ℕ → Bool
is_blank c = c == 13 || c == 10 || c == 9 || c == 32

-- What node's modules do.
pub record Platform : Type 0 where
  pub base_name : String → String
  pub nfkc : String → String
  pub lowered_ext_name : String → String
  pub to_lower_case : String → String
  pub resolve : String → String → String
  pub relative : String → String → String
  pub is_absolute : String → Bool
  pub posix_join : List String → String
  pub decode : String → List ℕ

-- How the write of a file ends: it is there, or the write fails and leaves nothing or a part of it.
pub data Written : Type 0 where
  writes refuses_write : Written
  leaves_part : List ℕ → Written

-- What the disk does at each path.
pub record Disk : Type 0 where
  pub write : String → Written
  pub removes : String → Bool

abbrev pub compacted : String → String
compacted given = drop_chars is_blank (or_else (text_behind b',' given) given)

module _ (node : Platform) where
  unfoldable pub decode_base64 : String → Option (List ℕ)
  decode_base64 given =
      let compact = compacted given in
      let content = node.decode compact in
      if not (truthy compact)
        || ltb max_attachment_base64_chars (utf16_length compact)
        || not (is_encoded compact)
      then none
      else if length content == 0
      then none
      else some content

  abbrev pub is_image_type : String → Bool
  is_image_type mime = is_some (strip_prefix "image/" mime)

  unfoldable pub classify_attachment : String → String → Option AttachmentKind
  classify_attachment name mime_type =
      let extension = node.lowered_ext_name name in
      let mime = node.to_lower_case mime_type in
      if is_image_type mime || includes image_extensions extension
      then some image
      else if includes file_extensions extension
          || is_some (strip_prefix "text/" mime)
          || mime == "application/octet-stream"
      then some file
      else none

  -- `relative.startsWith("..") || path.isAbsolute(relative)` is the refusal.
  abbrev pub is_inside : String → String → Bool
  is_inside parent inner =
      let relative = node.relative parent inner in
      not (is_some (strip_prefix ".." relative) || node.is_absolute relative)

  abbrev pub mime_of : Option String → String
  mime_of none = "application/octet-stream"
  mime_of (some given) = if truthy (trim given) then trim given else "application/octet-stream"

  abbrev pub name_of : UploadedAttachment → String
  name_of a = sanitize_attachment_file_name node.base_name node.nfkc a.name

  abbrev pub record_of :
      String → String → String → UploadedAttachment → ℕ → AttachmentKind → StoredAttachment
  record_of thread directory id a size kind = record {
    stored_id = id;
    original_name = name_of a;
    stored_mime_type = mime_of a.mime_type;
    stored_size = size;
    kind = kind;
    relative_path =
        node.posix_join
          (".acode" ∷ "attachments" ∷ thread ∷ concat id (concat "-" (name_of a)) ∷ []);
    absolute_path = node.resolve directory (concat id (concat "-" (name_of a)));
  }

  pub data Checked : Type 0 where
    bad : StoreError → Checked
    good : StoredAttachment → List ℕ → Checked

  unfoldable pub check_bytes : String → String → String → UploadedAttachment → List ℕ → Checked
  check_bytes thread directory id a content =
      if not (or_else a.size (length content) == length content)
      then bad invalid_size
      else if ltb max_attachment_bytes (length content)
      then bad attachment_too_large
      else elim (classify_attachment (name_of a) (mime_of a.mime_type)) [
        | none ↦ bad unsupported_type
        | some kind ↦
            let made = record_of thread directory id a (length content) kind in
            if is_inside directory made.absolute_path then good made content else bad path_escape
      ]

  -- All that is checked before the file is written; `id` is the fresh one.
  unfoldable pub check_attachment : String → String → String → UploadedAttachment → Checked
  check_attachment thread directory id a = elim (decode_base64 a.data_base64) [
    | none ↦ bad invalid_attachment
    | some content ↦ check_bytes thread directory id a content
  ]

  -- The paths and contents of the files.
  abbrev pub Files : Type 0
  Files = JsMap String (List ℕ)

  pub record Progress : Type 0 where
    pub files : Files
    pub stored : List StoredAttachment
    pub failure : Option StoreError

  -- What a failed write leaves of the file.
  abbrev pub write_failed_at : Files → String → Written → Files
  write_failed_at files path writes = files
  write_failed_at files path refuses_write = files
  write_failed_at files path (leaves_part content) = set files path content

  abbrev pub is_written : Written → Bool
  is_written writes = true
  is_written refuses_write = false
  is_written (leaves_part content) = false

  unfoldable pub write_checked : Disk → Files → List StoredAttachment → Checked → Progress
  write_checked disk files stored (bad e) = record {
    files = files;
    stored = stored;
    failure = some e;
  }
  write_checked disk files stored (good made content) =
      if is_written (disk.write made.absolute_path)
      then record {
        files = set files made.absolute_path content;
        stored = stored ++ made ∷ [];
        failure = none;
      }
      else record {
        files = write_failed_at files made.absolute_path (disk.write made.absolute_path);
        stored = stored;
        failure = some write_failed;
      }

  -- The loop over the attachments, each with its fresh id; it ends at the first failure.
  unfoldable pub store_each :
      Disk → String → String → Progress → List (String × UploadedAttachment) → Progress
  store_each disk thread directory p [] = p
  store_each disk thread directory p ((id, a) ∷ rest) = elim p.failure [
    | some e ↦ p
    | none ↦
        store_each disk thread directory
          (write_checked disk p.files p.stored (check_attachment thread directory id a)) rest
  ]

  -- The files of what was stored before the failure are removed; a removal that fails is passed over.
  unfoldable pub roll_back : Disk → Files → List StoredAttachment → Files
  roll_back disk files [] = files
  roll_back disk files (made ∷ rest) =
      let cut =
        if disk.removes made.absolute_path then delete files made.absolute_path else files in
      roll_back disk cut rest

  unfoldable pub finish : Disk → Progress → Files × (StoreError ⊎ List StoredAttachment)
  finish disk p = elim p.failure [
    | none ↦ (p.files, inr p.stored)
    | some e ↦ (roll_back disk p.files p.stored, inl e)
  ]

  -- `directory` is the resolved directory, `none` where `realpath` fails for it or the workspace.
  unfoldable pub store_attachments :
      Disk
      → Files
      → String
      → Option (String × String)
      → List (String × UploadedAttachment)
      → Files × (StoreError ⊎ List StoredAttachment)
  store_attachments disk files thread roots attachments =
      if ltb max_attachments_per_turn (length attachments)
      then (files, inl too_many_attachments)
      else if length attachments == 0
      then (files, inr [])
      else elim roots [
        | none ↦ (files, inl path_escape)
        | some (workspace, directory) ↦
            if is_inside workspace directory
            then finish disk (
                store_each disk thread directory
                  (record { files = files; stored = []; failure = none }) attachments)
            else (files, inl path_escape)
      ]
