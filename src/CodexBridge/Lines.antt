-- ===== src/CodexBridge/Lines.antt =====
-- codexBridge.ts, the output of the child: chunks of text, joined and cut into lines.
pub mod Chunks
use code_harbor.Common.{
  Bool, List, Option, String, [], if◌then◌else◌, ltb, nat_eq, none, some, string_eq, truthy, ℕ,
  ◌++◌, ◌∷◌,
}
use code_harbor.Common.Text.{byte_length, concat, split, trim}

abbrev pub max_stdout_buffer_bytes : ℕ
max_stdout_buffer_bytes = 33_554_432

-- `if (line) this.handleMessage(line)`, for the trimmed line
abbrev pub keep_line : String → List String × String → List String × String
keep_line line (lines, left) = (if truthy line then line ∷ lines else lines, left)

-- The lines of a text, each trimmed and none empty, and what stands behind the last line end.
unfoldable pub cut_lines : List String → List String × String
cut_lines [] = ([], "")
cut_lines (last ∷ []) = ([], last)
cut_lines (line ∷ next ∷ rest) = keep_line (trim line) (cut_lines (next ∷ rest))

unfoldable pub is_over_limit : String → Bool
is_over_limit buffer = ltb max_stdout_buffer_bytes (byte_length buffer)

-- A chunk joined to the buffer: the lines to handle and the buffer that is left, or `none` where
-- the limit is exceeded.
unfoldable pub receive : String → String → Option (List String × String)
receive buffer chunk =
    let joined = concat buffer chunk in
    if is_over_limit joined then none else some (cut_lines (split 10 joined))

abbrev pub after_lines : List String → Option (List String × String) → Option (List String × String)
after_lines lines none = none
after_lines lines (some (more, left)) = some (lines ++ more, left)

-- Chunk by chunk: the lines of each, and the buffer that the last leaves.
unfoldable pub receive_all : String → List String → Option (List String × String)
receive_all buffer [] = some ([], buffer)
receive_all buffer (chunk ∷ chunks) = elim (receive buffer chunk) [
  | none ↦ none
  | some (lines, left) ↦ after_lines lines (receive_all left chunks)
]

abbrev pub join_chunks : List String → String
join_chunks [] = ""
join_chunks (chunk ∷ chunks) = concat chunk (join_chunks chunks)
