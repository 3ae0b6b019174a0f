-- ===== src/Attachments/Tests.antt =====
-- Attachments at concrete inputs.
use code_harbor.Attachments.Names.{
  sanitize_attachment_file_name, sanitize_attachment_file_name-Avoids,
}
use code_harbor.Attachments.Storage.{
  Disk, Platform, UploadedAttachment, check_attachment, check_bytes, classify_attachment,
  decode_base64, finish, invalid_size, store_attachments, store_each, write_checked, writes,
}
use code_harbor.Attachments.Storage.Rollback.{IsLeft, store_attachments-rolled_back}
use code_harbor.Common.{Option, [], false, nat_eq, none, refl, some, string_eq, true, ℕ, ◌∷◌}
use code_harbor.Common.JsMap.{get}
use code_harbor.Common.Text.{Avoids, concat, drop_chars, skip_while, strip_prefix, text_behind}

-- Stand-ins for node's modules: every file is a text file of one byte.
abbrev test_node : Platform
test_node = record {
  base_name = λ s. s;
  nfkc = λ s. s;
  lowered_ext_name = λ s. ".txt";
  to_lower_case = λ s. s;
  resolve = λ directory s. concat directory s;
  relative = λ a b. "x";
  is_absolute = λ s. false;
  posix_join = λ ts. "x";
  decode = λ s. 1 ∷ [];
}

abbrev test_upload : Option ℕ → UploadedAttachment
test_upload size = record { name = "a/b"; mime_type = none; size = size; data_base64 = "AQ==" }

sanitize_attachment_file_name-Avoids_example :
    Avoids b'/' (sanitize_attachment_file_name (λ s. s) (λ s. s) "../a")
sanitize_attachment_file_name-Avoids_example =
    (sanitize_attachment_file_name-Avoids (λ s. s) (λ s. s) "../a").0

abbrev test_disk : Disk
test_disk = record { write = λ path. writes; removes = λ path. true }

-- The first attachment is stored, the second has a wrong size, and the first is removed again.
store_attachments-rolled_back_example : IsLeft test_node test_disk [] "/w/i-a-b" (
    get
      (store_attachments test_node test_disk [] "t"
        (some ("/w", "/w/"))
        (("i", test_upload none) ∷ ("j", test_upload (some 9)) ∷ [])).0
      "/w/i-a-b")
unfolding get store_attachments finish store_each write_checked check_attachment check_bytes
    decode_base64 classify_attachment sanitize_attachment_file_name strip_prefix drop_chars
    text_behind skip_while
store_attachments-rolled_back_example =
    store_attachments-rolled_back test_node test_disk [] "t" (some ("/w", "/w/"))
      (("i", test_upload none) ∷ ("j", test_upload (some 9)) ∷ []) invalid_size "/w/i-a-b" refl
