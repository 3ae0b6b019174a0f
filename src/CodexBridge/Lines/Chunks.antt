-- ===== src/CodexBridge/Lines/Chunks.antt =====
-- However the output of the child is cut into chunks, the same lines are handled.
use code_harbor.CodexBridge.Lines.{
  cut_lines, is_over_limit, join_chunks, keep_line, max_stdout_buffer_bytes, receive, receive_all,
}
use code_harbor.Common.{
  All, Bool-cases, List, String, [], ap, arith, inl, inr, length, nat_eq, refl, some, string_eq,
  sym, truthy, ℕ, ◌++◌, ◌+◌, ◌<◌, ◌∙◌, ◌∷◌, ◌≡◌, ◌≤◌,
}
use code_harbor.Common.Text.{
  Avoids, byte_length, concat, concat_assoc, split, split_of_Avoids, trim,
}
use code_harbor.Common.Text.Parts.{
  byte_length-concat, concat-nil, glue, split-Avoids, split-concat-glue, split-first, sum_bytes,
  sum_bytes-split,
}

-- The lines of a part and of what follows it, with the part's rest put in front.
abbrev after_part : List String × String → List String → List String × String
after_part (lines, left) ys =
    let (more, rest) = cut_lines (glue (left ∷ []) ys) in (lines ++ more, rest)

keep_line-after_part :
    (line : String) (r : List String × String) (ys : List String)
    → keep_line line (after_part r ys) ≡ after_part (keep_line line r) ys
keep_line-after_part line (lines, left) ys = elim (Bool-cases (truthy line)) [
  | inl some' ↦ rw some' refl
  | inr empty ↦ rw empty refl
]

cut_lines-step :
    (x : String) (zs : List String)
    → 0 < length zs
    → cut_lines (x ∷ zs) ≡ keep_line (trim x) (cut_lines zs)
unfolding cut_lines
cut_lines-step x [] h = absurd (omega arith)
cut_lines-step x (z ∷ zs) h = refl

length-glue : (x : String) (xs ys : List String) → 0 < length (glue (x ∷ xs) ys)
length-glue x [] [] = omega arith
length-glue x [] (y ∷ ys) = omega arith
length-glue x (x' ∷ xs) ys = omega arith

cut_lines-glue :
    (x : String) (xs ys : List String)
    → cut_lines (glue (x ∷ xs) ys) ≡ after_part (cut_lines (x ∷ xs)) ys
unfolding cut_lines
cut_lines-glue x [] ys = refl
cut_lines-glue x (x' ∷ xs) ys =
    cut_lines-step x (glue (x' ∷ xs) ys) (length-glue x' xs ys)
    ∙ ap (keep_line (trim x)) (cut_lines-glue x' xs ys)
    ∙ keep_line-after_part (trim x) (cut_lines (x' ∷ xs)) ys

keep_line-left : (line : String) (r : List String × String) → (keep_line line r).1 ≡ r.1
keep_line-left line (lines, left) = refl

left-Avoids : (sep : ℕ) (xs : List String) → All (Avoids sep) xs → Avoids sep (cut_lines xs).1
unfolding cut_lines
left-Avoids sep [] h = tt
left-Avoids sep (x ∷ []) (p, h) = p
left-Avoids sep (x ∷ x' ∷ xs) (p, h) =
    rw (keep_line-left (trim x) (cut_lines (x' ∷ xs))) (left-Avoids sep (x' ∷ xs) h)

-- What is cut from two texts together is cut from the first, and then from its rest and the second.
cut_concat :
    (s t : String)
    → cut_lines (split 10 (concat s t)) ≡ (
      (cut_lines (split 10 s)).0 ++ (cut_lines (split 10 (concat (cut_lines (split 10 s)).1 t))).0,
      (cut_lines (split 10 (concat (cut_lines (split 10 s)).1 t))).1,
    )
cut_concat s t =
    let (x, xs, e) = split-first 10 s in
    let left = (cut_lines (split 10 s)).1 in
    let clean = split_of_Avoids 10 left (left-Avoids 10 (split 10 s) (split-Avoids 10 s)) in
    let again : split 10 (concat left t) ≡ glue (left ∷ []) (split 10 t) =
      split-concat-glue 10 left t ∙ ap (λ p. glue p (split 10 t)) clean in
    rw (again, split-concat-glue 10 s t, e) (cut_lines-glue x xs (split 10 t))

left-bytes : (xs : List String) → byte_length (cut_lines xs).1 ≤ sum_bytes xs
unfolding cut_lines byte_length
left-bytes [] = omega arith
left-bytes (x ∷ []) = omega arith
left-bytes (x ∷ x' ∷ xs) =
    rw (keep_line-left (trim x) (cut_lines (x' ∷ xs))) (omega (arith, left-bytes (x' ∷ xs)))

receive_within :
    (buffer chunk : String)
    → byte_length (concat buffer chunk) ≤ max_stdout_buffer_bytes
    → receive buffer chunk ≡ some (cut_lines (split 10 (concat buffer chunk)))
unfolding receive is_over_limit
receive_within buffer chunk h = ground arith

-- Up to the limit of 32 MB in all, it does not matter how the output is cut into chunks: from a
-- buffer that holds no line end, the chunks one by one give the lines, and leave the buffer, that all
-- of them joined give in one chunk.
pub receive_all-eq-receive :
    (buffer : String) (chunks : List String)
    → Avoids 10 buffer
    → byte_length (concat buffer (join_chunks chunks)) ≤ max_stdout_buffer_bytes
    → receive_all buffer chunks ≡ receive buffer (join_chunks chunks)
unfolding receive_all cut_lines
receive_all-eq-receive buffer [] clean h =
    rw (receive_within buffer "" h, concat-nil buffer, split_of_Avoids 10 buffer clean) refl
receive_all-eq-receive buffer (chunk ∷ chunks) clean h =
    let joined = join_chunks chunks in
    let first = concat buffer chunk in
    let parts = split 10 first in
    let left = (cut_lines parts).1 in
    let all : concat first joined ≡ concat buffer (concat chunk joined) =
      concat_assoc buffer chunk joined in
    let sum : byte_length first + byte_length joined ≤ max_stdout_buffer_bytes =
      rw (sym (byte_length-concat first joined), all) h in
    let less : byte_length left ≤ byte_length first =
      omega (arith, left-bytes parts, sum_bytes-split 10 first) in
    let fits : byte_length (concat left joined) ≤ max_stdout_buffer_bytes =
      rw (byte_length-concat left joined) (omega arith) in
    let tail =
      receive_all-eq-receive left chunks (left-Avoids 10 parts (split-Avoids 10 first)) fits in
    rw
      (
        receive_within buffer chunk (omega arith),
        receive_all,
        tail,
        receive_within left joined fits,
        receive_within buffer (concat chunk joined) h,
        sym all,
        cut_concat first joined,
      )
      refl
